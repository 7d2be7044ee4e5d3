-- ===== src/Calendar/Bars.antt =====
-- The bar of a stay covers the columns of its nights.
use sambung.Common.{
  inr, inl, Bool-cases, arith, ℕ, ◌+◌, ◌<◌, ◌≡◌, Bool, false, not, ◌&&◌, Option, none, some, ltb,
  leb, ◌≤◌, ◌-◌, ◌∙◌,
}
use sambung.Common.Int.{ℤ, pos, ltb_ℤ, ◌-ℤ◌}
use sambung.Stay.{count_nights}
use sambung.Calendar.{Window, BarSpan, bar_span, clip_column}

-- The column `i` lies under the bar.
abbrev pub covers : Option BarSpan → ℕ → Bool
covers none i = false
covers (some s) i = not (ltb_ℤ (pos i) s.start) && ltb_ℤ (pos i) s.end

clip_column-ltb :
    (n i : ℕ) (raw : ℤ) → i < n → ltb_ℤ (pos i) (clip_column (pos n) raw) ≡ ltb_ℤ (pos i) raw
unfolding clip_column
clip_column-ltb n i raw h = ground arith

count_nights-ltb : (from d i : ℕ) → ltb_ℤ (pos i) (count_nights from d) ≡ ltb (from + i) d
unfolding count_nights ◌-ℤ◌
count_nights-ltb from d i = ground arith

count_nights-pos : (from to : ℕ) → from ≤ to → count_nights from to ≡ pos (to - from)
unfolding count_nights ◌-ℤ◌
count_nights-pos from to h = ground arith

-- For every column of the window, the bar of a stay covers the column exactly if its day is a
-- night of the stay, and a stay without a bar has no night in the window.
pub bar_span-night :
    (w : Window) (check_in check_out i : ℕ)
    → w.from + i < w.to
    → covers (bar_span w check_in check_out) i
      ≡ (leb check_in (w.from + i) && ltb (w.from + i) check_out)
unfolding bar_span
bar_span-night w check_in check_out i h =
    let n = w.to - w.from in
    let first = clip_column (pos n) (count_nights w.from check_in) in
    let last = clip_column (pos n) (count_nights w.from check_out) in
    let in_window : i < n = omega arith in
    let left : ltb_ℤ (pos i) first ≡ ltb (w.from + i) check_in =
      clip_column-ltb n i _ in_window ∙ count_nights-ltb w.from check_in i in
    let right : ltb_ℤ (pos i) last ≡ ltb (w.from + i) check_out =
      clip_column-ltb n i _ in_window ∙ count_nights-ltb w.from check_out i in
    rw (count_nights-pos w.from w.to (omega arith)) (elim (Bool-cases (ltb_ℤ first last)) [
      | inl y ↦ rw (y, left, right) (ground arith)
      | inr none_left ↦ rw none_left (ground (arith, left, right, none_left))
    ])

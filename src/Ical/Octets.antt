-- ===== src/Ical/Octets.antt =====
-- No line that `foldLine` writes is longer than 75 octets (apps/api/src/channel-sync/ical.ts).
use sambung.Common.{
  ℕ, ◌+◌, ◌≤◌, Bool, true, false, List, [], ◌∷◌, ◌++◌, ltb, leb, All, ◌≡◌, refl, sym, ap, ◌∙◌,
  arith, Bool-cases, inl, inr, leb→le,
}
use mathlib.Core.List.{append_assoc}
use sambung.Ical.Text.{Text}
use sambung.Ical.Lines.{split_lines}
use sambung.Ical.Build.{crlf, octets, text_octets, lead, limit, fold_from, fold_line}
use sambung.Ical.Folding.{is_plain, is_plain-append, octets_bounds, split_lines-line}

abbrev pub Within : List Text → Type 0
Within ls = All (λ l. text_octets l ≤ 75) ls

Within-append : (ks bs : List Text) → Within ks → Within bs → Within (ks ++ bs)
Within-append [] bs h k = k
Within-append (a ∷ ks) bs h k = (h.0, Within-append ks bs h.1 k)

text_octets-append : (a b : Text) → text_octets (a ++ b) ≡ text_octets a + text_octets b
unfolding text_octets
text_octets-append [] b = omega arith
text_octets-append (c ∷ cs) b = omega (arith, text_octets-append cs b)

split_lines-plain : (l : Text) → is_plain l ≡ true → split_lines false l ≡ l ∷ []
unfolding split_lines
split_lines-plain [] h = refl
split_lines-plain (c ∷ cs) h = ground (arith, split_lines-plain cs)

is_plain-lead : (first : Bool) (l : Text) → is_plain l ≡ true → is_plain (lead first ++ l) ≡ true
is_plain-lead true l h = h
is_plain-lead false l h = h

text_octets-lead :
    (first : Bool) (l : Text) → text_octets l ≤ limit first → text_octets (lead first ++ l) ≤ 75
text_octets-lead true l h = h
text_octets-lead false l h = unfold text_octets octets in omega (arith, h)

-- What is out splits into the lines `done`.
record Splits (out : Text) (done : List Text) : Type 0 where
  splits : (t : Text) → split_lines false (out ++ t) ≡ done ++ split_lines false t
  within : Within done

fold_from-Within :
    (out : Text) (done : List Text) (current : Text) (bytes : ℕ) (first : Bool) (rest : Text)
    → Splits out done
    → is_plain current ≡ true
    → is_plain rest ≡ true
    → text_octets current ≡ bytes
    → bytes ≤ limit first
    → Within (split_lines false (fold_from out current bytes first rest))
unfolding fold_from
fold_from-Within out done current bytes first [] s pc pr e le =
    rw
      (
        s.splits (lead first ++ current),
        split_lines-plain (lead first ++ current) (is_plain-lead first current pc),
      )
      (Within-append done ((lead first ++ current) ∷ []) s.within
        (text_octets-lead first current (omega arith), tt))
fold_from-Within out done current bytes first (ch ∷ rest) s pc pr e le =
    elim (Bool-cases (ltb (limit first) (bytes + octets ch))) [
      | inl y ↦ rw y (
          fold_from-Within (out ++ (lead first ++ (current ++ crlf)))
            (done ++ (lead first ++ current) ∷ []) (ch ∷ []) (octets ch) false rest broken
            (ground arith) (ground arith) (unfold text_octets in omega arith)
            (omega (arith, octets_bounds ch)))
      | inr n ↦ rw n (
          fold_from-Within out done (current ++ ch ∷ []) (bytes + octets ch) first rest s
            (is_plain-append current (ch ∷ []) ∙ ground arith) (ground arith)
            (text_octets-append current (ch ∷ []) ∙ unfold text_octets in omega arith)
            (ground arith))
    ]
  where
    broken :
        Splits (out ++ (lead first ++ (current ++ crlf))) (done ++ (lead first ++ current) ∷ [])
    broken = record {
      splits = λ t. simp append_assoc (
          s.splits (lead first ++ (current ++ (crlf ++ t)))
          ∙ ap (λ u. done ++ u)
              (rw (sym (append_assoc (lead first) current (crlf ++ t)))
                (split_lines-line (lead first ++ current) t (is_plain-lead first current pc))));
      within =
          Within-append done ((lead first ++ current) ∷ []) s.within
            (text_octets-lead first current (omega arith), tt);
    }

-- Every line that folding makes of a line without breaks has at most 75 octets, the leading space
-- of a continuation included.
pub fold_line-Within :
    (line : Text) → is_plain line ≡ true → Within (split_lines false (fold_line line))
unfolding fold_line
fold_line-Within line p = elim (Bool-cases (leb (text_octets line) 75)) [
  | inl y ↦ rw (y, split_lines-plain line p) (leb→le (text_octets line) 75 y, tt)
  | inr n ↦ rw n (
      fold_from-Within [] [] [] 0 true line (record { splits = λ t. refl; within = tt }) refl p
        (unfold text_octets in refl) (omega arith))
]

-- ===== src/Ical/Folding.antt =====
-- The parser's `unfold` undoes the serializer's `foldLine` (apps/api/src/channel-sync/ical.ts).
use sambung.Common.{
  ℕ, ◌+◌, ◌≤◌, Bool, true, false, not, ◌&&◌, ◌||◌, List, [], ◌∷◌, ◌++◌, ltb, leb, ◌==◌, any, All,
  ◌≡◌, refl, sym, ap, ◌∙◌, arith, Bool-cases, inl, inr,
}
use mathlib.Core.List.{append-nil, append_assoc}
use sambung.Ical.Text.{Text}
use sambung.Ical.Lines.{is_blank, drop_crlf_folds, drop_folds, split_lines, unfold_lines}
use sambung.Ical.Build.{crlf, octets, text_octets, lead, limit, fold_from, fold_line, print_lines}

abbrev pub is_break : ℕ → Bool
is_break c = c == b'\r' || c == b'\n'

-- No CR and no LF.
abbrev pub is_plain : Text → Bool
is_plain t = not (any is_break t)

drop_crlf_folds-cons :
    (c : ℕ) (t : Text) → (c == b'\r') ≡ false → drop_crlf_folds (c ∷ t) ≡ c ∷ drop_crlf_folds t
unfolding drop_crlf_folds
drop_crlf_folds-cons c [] h = refl
drop_crlf_folds-cons c (a ∷ []) h = refl
drop_crlf_folds-cons c (a ∷ b ∷ t) h = ground arith

drop_crlf_folds-plain :
    (l t : Text) → is_plain l ≡ true → drop_crlf_folds (l ++ t) ≡ l ++ drop_crlf_folds t
drop_crlf_folds-plain [] t h = refl
drop_crlf_folds-plain (c ∷ cs) t h =
    drop_crlf_folds-cons c (cs ++ t) (ground arith)
    ∙ ap (λ u. c ∷ u) (drop_crlf_folds-plain cs t (ground arith))

-- A fold vanishes.
drop_crlf_folds-space : (t : Text) → drop_crlf_folds (b'\r' ∷ b'\n' ∷ b' ' ∷ t) ≡ drop_crlf_folds t
unfolding drop_crlf_folds
drop_crlf_folds-space t = refl

-- What a text begins with, if it is not empty, is no blank.
abbrev pub starts_clean : Text → Bool
starts_clean [] = true
starts_clean (c ∷ cs) = not (is_blank c)

drop_crlf_folds-crlf :
    (t : Text) → starts_clean t ≡ true → drop_crlf_folds (crlf ++ t) ≡ crlf ++ drop_crlf_folds t
drop_crlf_folds-crlf [] h = unfold drop_crlf_folds in refl
drop_crlf_folds-crlf (c ∷ t) h =
    first ∙ ap (λ u. b'\r' ∷ u) (drop_crlf_folds-cons b'\n' (c ∷ t) refl)
  where
    first : drop_crlf_folds (crlf ++ c ∷ t) ≡ b'\r' ∷ drop_crlf_folds (b'\n' ∷ c ∷ t)
    first = unfold drop_crlf_folds in ground arith

pub is_plain-append : (a b : Text) → is_plain (a ++ b) ≡ (is_plain a && is_plain b)
is_plain-append [] b = refl
is_plain-append (c ∷ cs) b = ground (arith, is_plain-append cs b)

-- Text that is out, with the next line's lead behind it: it unfolds to `done`.
abbrev Unfolds : Text → Text → Bool → Type 0
Unfolds out done first =
    (t : Text) → drop_crlf_folds (out ++ (lead first ++ t)) ≡ done ++ drop_crlf_folds t

Unfolds-current :
    (out done current : Text) (first : Bool)
    → Unfolds out done first
    → is_plain current ≡ true
    → (t : Text)
    → drop_crlf_folds ((out ++ (lead first ++ current)) ++ t)
      ≡ done ++ (current ++ drop_crlf_folds t)
Unfolds-current out done current first h p t =
    simp append_assoc (h (current ++ t) ∙ ap (λ u. done ++ u) (drop_crlf_folds-plain current t p))

Unfolds-break :
    (out done current : Text) (first : Bool)
    → Unfolds out done first
    → is_plain current ≡ true
    → Unfolds (out ++ (lead first ++ (current ++ crlf))) (done ++ current) false
Unfolds-break out done current first h p t = simp append_assoc (
    h (current ++ (b'\r' ∷ b'\n' ∷ b' ' ∷ t))
    ∙ ap (λ u. done ++ u)
        (drop_crlf_folds-plain current (b'\r' ∷ b'\n' ∷ b' ' ∷ t) p
          ∙ ap (λ u. current ++ u) (drop_crlf_folds-space t)))

fold_from-Unfolds :
    (out done current : Text) (bytes : ℕ) (first : Bool) (rest : Text)
    → Unfolds out done first
    → is_plain current ≡ true
    → is_plain rest ≡ true
    → (t : Text)
    → drop_crlf_folds (fold_from out current bytes first rest ++ t)
      ≡ done ++ (current ++ (rest ++ drop_crlf_folds t))
unfolding fold_from
fold_from-Unfolds out done current bytes first [] h pc pr t =
    Unfolds-current out done current first h pc t
fold_from-Unfolds out done current bytes first (ch ∷ rest) h pc pr t =
    elim (Bool-cases (ltb (limit first) (bytes + octets ch))) [
      | inl y ↦ rw y (
          fold_from-Unfolds (out ++ (lead first ++ (current ++ crlf))) (done ++ current) (ch ∷ [])
            (octets ch) false rest (Unfolds-break out done current first h pc) (ground arith)
            (ground arith) t
          ∙ append_assoc done current (ch ∷ (rest ++ drop_crlf_folds t)))
      | inr n ↦ rw n (
          fold_from-Unfolds out done (current ++ ch ∷ []) (bytes + octets ch) first rest h
            (is_plain-append current (ch ∷ []) ∙ ground arith) (ground arith) t
          ∙ ap (λ u. done ++ u) (append_assoc current (ch ∷ []) (rest ++ drop_crlf_folds t)))
    ]

-- A folded line, once its folds are dropped.
fold_line-unfolds :
    (line t : Text)
    → is_plain line ≡ true
    → drop_crlf_folds (fold_line line ++ t) ≡ line ++ drop_crlf_folds t
unfolding fold_line
fold_line-unfolds line t p = elim (Bool-cases (leb (text_octets line) 75)) [
  | inl y ↦ rw y (drop_crlf_folds-plain line t p)
  | inr n ↦ rw n (fold_from-Unfolds [] [] [] 0 true line (λ u. refl) refl p t)
]

-- The loop keeps what is out and what it has read of the line.
fold_from-prefix :
    (out current : Text) (bytes : ℕ) (first : Bool) (rest : Text)
    → (more : Text) × (fold_from out current bytes first rest
        ≡ (out ++ (lead first ++ current)) ++ more)
unfolding fold_from
fold_from-prefix out current bytes first [] =
    ([], sym (append-nil (out ++ (lead first ++ current))))
fold_from-prefix out current bytes first (ch ∷ rest) =
    elim (Bool-cases (ltb (limit first) (bytes + octets ch))) [
      | inl y ↦
          let (more, e) =
            fold_from-prefix (out ++ (lead first ++ (current ++ crlf))) (ch ∷ []) (octets ch) false
              rest in
          (crlf ++ (b' ' ∷ ch ∷ more), rw y (e ∙ simp append_assoc))
      | inr n ↦
          let (more, e) =
            fold_from-prefix out (current ++ ch ∷ []) (bytes + octets ch) first rest in
          (ch ∷ more, rw n (e ∙ simp append_assoc))
    ]

pub octets_bounds : (c : ℕ) → (1 ≤ octets c) × (octets c ≤ 4)
unfolding octets
octets_bounds c = ground arith

fold_line-head : (c : ℕ) (cs : Text) → (more : Text) × (fold_line (c ∷ cs) ≡ c ∷ more)
unfolding fold_line fold_from
fold_line-head c cs = elim (Bool-cases (leb (text_octets (c ∷ cs)) 75)) [
  | inl y ↦ (cs, rw y refl)
  | inr n ↦
      let fits : ltb 75 (0 + octets c) ≡ false = ground (arith, octets_bounds c) in
      let (more, e) = fold_from-prefix [] (c ∷ []) (0 + octets c) true cs in (more, rw (n, fits) e)
]

-- A content line: it is not empty, does not begin with a blank, and has no line break.
abbrev pub IsLine : Text → Type 0
IsLine [] = ⊥
IsLine (c ∷ cs) = (is_blank c ≡ false) × (is_plain (c ∷ cs) ≡ true)

-- The lines as they are, each with its CRLF.
join_lines : List Text → Text
join_lines [] = []
join_lines (l ∷ ls) = l ++ (crlf ++ join_lines ls)

starts_clean-print_lines : (ls : List Text) → All IsLine ls → starts_clean (print_lines ls) ≡ true
unfolding print_lines
starts_clean-print_lines [] h = refl
starts_clean-print_lines ([] ∷ ls) h = absurd h.0
starts_clean-print_lines ((c ∷ cs) ∷ ls) h =
    let (more, e) = fold_line-head c cs in rw e (ground (arith, h.0))

starts_clean-join_lines : (ls : List Text) → All IsLine ls → starts_clean (join_lines ls) ≡ true
unfolding join_lines
starts_clean-join_lines [] h = refl
starts_clean-join_lines ([] ∷ ls) h = absurd h.0
starts_clean-join_lines ((c ∷ cs) ∷ ls) h = ground (arith, h.0)

IsLine-plain : (l : Text) → IsLine l → is_plain l ≡ true
IsLine-plain [] h = absurd h
IsLine-plain (c ∷ cs) h = h.1

drop_crlf_folds-print_lines :
    (ls : List Text) → All IsLine ls → drop_crlf_folds (print_lines ls) ≡ join_lines ls
unfolding print_lines join_lines
drop_crlf_folds-print_lines [] h = unfold drop_crlf_folds in refl
drop_crlf_folds-print_lines (l ∷ ls) h =
    fold_line-unfolds l (crlf ++ print_lines ls) (IsLine-plain l h.0)
    ∙ ap (λ u. l ++ u)
        (drop_crlf_folds-crlf (print_lines ls) (starts_clean-print_lines ls h.1)
          ∙ ap (λ u. crlf ++ u) (drop_crlf_folds-print_lines ls h.1))

drop_folds-cons : (c : ℕ) (t : Text) → is_break c ≡ false → drop_folds (c ∷ t) ≡ c ∷ drop_folds t
unfolding drop_folds
drop_folds-cons c [] h = refl
drop_folds-cons c (a ∷ t) h = ground arith

drop_folds-plain : (l t : Text) → is_plain l ≡ true → drop_folds (l ++ t) ≡ l ++ drop_folds t
drop_folds-plain [] t h = refl
drop_folds-plain (c ∷ cs) t h =
    drop_folds-cons c (cs ++ t) (ground arith)
    ∙ ap (λ u. c ∷ u) (drop_folds-plain cs t (ground arith))

drop_folds-crlf : (t : Text) → starts_clean t ≡ true → drop_folds (crlf ++ t) ≡ crlf ++ drop_folds t
unfolding drop_folds
drop_folds-crlf [] h = refl
drop_folds-crlf (c ∷ t) h = ground arith

drop_folds-join_lines :
    (ls : List Text) → All IsLine ls → drop_folds (join_lines ls) ≡ join_lines ls
unfolding join_lines
drop_folds-join_lines [] h = unfold drop_folds in refl
drop_folds-join_lines (l ∷ ls) h =
    drop_folds-plain l (crlf ++ join_lines ls) (IsLine-plain l h.0)
    ∙ ap (λ u. l ++ u)
        (drop_folds-crlf (join_lines ls) (starts_clean-join_lines ls h.1)
          ∙ ap (λ u. crlf ++ u) (drop_folds-join_lines ls h.1))

pub split_lines-line :
    (l t : Text)
    → is_plain l ≡ true
    → split_lines false (l ++ (crlf ++ t)) ≡ l ∷ split_lines false t
unfolding split_lines
split_lines-line [] t h = refl
split_lines-line (c ∷ cs) t h = ground (arith, split_lines-line cs t)

split_lines-join_lines :
    (ls : List Text) → All IsLine ls → split_lines false (join_lines ls) ≡ ls ++ [] ∷ []
unfolding join_lines
split_lines-join_lines [] h = unfold split_lines in refl
split_lines-join_lines (l ∷ ls) h =
    split_lines-line l (join_lines ls) (IsLine-plain l h.0)
    ∙ ap (λ u. l ∷ u) (split_lines-join_lines ls h.1)

-- For lines that are not empty, do not begin with a blank and have no line break, unfolding and
-- splitting the folded text gives the lines back, and an empty one after the last CRLF.
pub unfold_lines-print_lines :
    (ls : List Text) → All IsLine ls → unfold_lines (print_lines ls) ≡ ls ++ [] ∷ []
unfolding unfold_lines
unfold_lines-print_lines ls h =
    rw (drop_crlf_folds-print_lines ls h, drop_folds-join_lines ls h) (split_lines-join_lines ls h)

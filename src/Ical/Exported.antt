-- ===== src/Ical/Exported.antt =====
-- Each piece of an exported calendar, read back (apps/api/src/channel-sync/ical.ts, ical-parse.ts).
use sambung.Common.{
  ℕ, Bool, true, false, not, ◌&&◌, ◌||◌, none, some, [], ◌∷◌, ◌==◌, leb, if◌then◌else◌, ◌≡◌, refl,
  ap, ◌∙◌, arith,
}
use sambung.Ical.Text.{
  Text, is_digit, is_space, trim, trim_start, trim_end, four_digits, two_digits,
}
use sambung.Ical.Date.{date_exists}
use sambung.Ical.IsoDate.{
  ZoneContext, is_iso, to_iso_date, read_date, localized, utc_time, eight_digits, dashed,
}
use sambung.Ical.Build.{escape_char, escape_newlines, escape_text, format_date}
use sambung.Ical.Folding.{is_plain}

-- A date of the calendar, as YYYY-MM-DD.
abbrev pub IsDate : Text → Type 0
IsDate (a ∷ b ∷ c ∷ d ∷ s ∷ e ∷ f ∷ t ∷ g ∷ h ∷ []) =
    (is_iso (a ∷ b ∷ c ∷ d ∷ s ∷ e ∷ f ∷ t ∷ g ∷ h ∷ []) ≡ true)
    × (date_exists (four_digits a b c d) (two_digits e f) (two_digits g h) ≡ true)
IsDate _ = ⊥

if_not : {A : Type 0} (b : Bool) (x y : A) → b ≡ true → (if not b then x else y) ≡ y
if_not true x y h = refl
if_not false x y h = cc

is_space-digit : (c : ℕ) → is_digit c ≡ true → is_space c ≡ false
is_space-digit c h = ground arith

trim_start-clean : (c : ℕ) (cs : Text) → is_space c ≡ false → trim_start (c ∷ cs) ≡ c ∷ cs
trim_start-clean c cs h = ground arith

-- A `DATE` value is taken as it is.
to_iso_date-digits :
    (zone : ZoneContext) (a b c d e f g h : ℕ)
    → eight_digits a b c d e f g h ≡ true
    → date_exists (four_digits a b c d) (two_digits e f) (two_digits g h) ≡ true
    → to_iso_date (a ∷ b ∷ c ∷ d ∷ e ∷ f ∷ g ∷ h ∷ []) zone
      ≡ some (dashed (a ∷ b ∷ c ∷ d ∷ []) (e ∷ f ∷ []) (g ∷ h ∷ []))
to_iso_date-digits zone a b c d e f g h digits real =
    unfold to_iso_date in
    ap (read_date zone)
      (trim_start-clean a (b ∷ c ∷ d ∷ e ∷ f ∷ g ∷ h ∷ []) (is_space-digit a (ground arith)))
    ∙ (unfold read_date localized utc_time in
        if_not (eight_digits a b c d e f g h) none _ digits
        ∙ if_not (date_exists (four_digits a b c d) (two_digits e f) (two_digits g h)) none _ real)

-- A date as the serializer writes it, which the parser reads back.
pub record Printed (t : Text) : Type 0 where
  pub text : Text
  pub formatted : format_date t ≡ some text
  pub plain : is_plain text ≡ true
  pub read : (zone : ZoneContext) → to_iso_date text zone ≡ some t

pub IsDate-Printed : (t : Text) → IsDate t → Printed t
unfolding format_date is_iso
IsDate-Printed (a ∷ b ∷ c ∷ d ∷ s ∷ e ∷ f ∷ t ∷ g ∷ h ∷ []) (iso, real) = record {
  text = a ∷ b ∷ c ∷ d ∷ e ∷ f ∷ g ∷ h ∷ [];
  formatted = rw iso refl;
  plain = ground arith;
  read = λ zone. to_iso_date-digits zone a b c d e f g h (ground arith) real ∙ ground arith;
}
IsDate-Printed _ h = absurd h

-- The characters of a uuid, and the other letters.
abbrev pub is_token : ℕ → Bool
is_token c = is_digit c || leb b'a' c && leb c b'z' || leb b'A' c && leb c b'Z' || c == b'-'

abbrev pub IsToken : Text → Type 0
IsToken [] = Unit
IsToken (c ∷ cs) = (is_token c ≡ true) × IsToken cs

escape_char-IsToken : (c : ℕ) (t : Text) → is_token c ≡ false → IsToken t → escape_char c t ≡ t
unfolding escape_char
escape_char-IsToken c [] e h = refl
escape_char-IsToken c (d ∷ ds) e h = ground (arith, escape_char-IsToken c ds e h.1)

escape_newlines-IsToken : (t : Text) → IsToken t → escape_newlines false t ≡ t
unfolding escape_newlines
escape_newlines-IsToken [] h = refl
escape_newlines-IsToken (d ∷ ds) h = ground (arith, escape_newlines-IsToken ds h.1)

pub escape_text-IsToken : (t : Text) → IsToken t → escape_text t ≡ t
unfolding escape_text
escape_text-IsToken t h =
    rw
      (
        escape_char-IsToken b'\\' t refl h,
        escape_char-IsToken b';' t refl h,
        escape_char-IsToken b',' t refl h,
      )
      (escape_newlines-IsToken t h)

escape_newlines-plain : (after_cr : Bool) (t : Text) → is_plain (escape_newlines after_cr t) ≡ true
unfolding escape_newlines
escape_newlines-plain after_cr [] = refl
escape_newlines-plain after_cr (c ∷ cs) = ground (arith, escape_newlines-plain (c == b'\r') cs)

-- What is escaped has no line break.
pub escape_text-plain : (t : Text) → is_plain (escape_text t) ≡ true
unfolding escape_text
escape_text-plain t = escape_newlines-plain false _

is_space-token : (c : ℕ) → is_token c ≡ true → is_space c ≡ false
is_space-token c h = ground arith

trim_end-IsToken : (t : Text) → IsToken t → trim_end t ≡ t
trim_end-IsToken [] h = refl
trim_end-IsToken (c ∷ cs) h = ground (arith, trim_end-IsToken cs h.1)

pub trim-IsToken : (t : Text) → IsToken t → trim t ≡ t
trim-IsToken [] h = refl
trim-IsToken (c ∷ cs) h =
    rw (trim_start-clean c cs (is_space-token c h.0)) (trim_end-IsToken (c ∷ cs) h)

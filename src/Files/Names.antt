-- ===== src/Files/Names.antt =====
-- `SanitizeFilename`: what it removes, and which names it leaves as they are.
use p2p_server_file_storage.Prelude.{
  ℕ, ◌≡◌, refl, Bool, false, ◌&&◌, [], ◌∷◌, arith, All, Bool-cases, inl, inr, if_cases,
}
use p2p_server_file_storage.Text.{Text, codes, is_empty}
use p2p_server_file_storage.Files.{
  is_dangerous, is_blank, remove_dangerous, drop_leading, drop_trailing, sanitize_filename,
}

abbrev pub starts_blank : Text → Bool
starts_blank [] = false
starts_blank (c ∷ s) = is_blank c

abbrev pub ends_blank : Text → Bool
ends_blank [] = false
ends_blank (c ∷ []) = is_blank c
ends_blank (c ∷ d ∷ s) = ends_blank (d ∷ s)

-- A name with none of the characters / \ : * ? " < > | and no blank at either end.
pub record IsClean (s : Text) : Type 0 where
  pub harmless : All (λ c. is_dangerous c ≡ false) s
  pub starts : starts_blank s ≡ false
  pub ends : ends_blank s ≡ false

remove_dangerous-All : (s : Text) → All (λ c. is_dangerous c ≡ false) (remove_dangerous s)
unfolding remove_dangerous
remove_dangerous-All [] = tt
remove_dangerous-All (c ∷ s) = elim (Bool-cases (is_dangerous c)) [
  | inl e ↦ rw (e, remove_dangerous) (remove_dangerous-All s)
  | inr e ↦ rw (e, remove_dangerous) (e, remove_dangerous-All s)
]

drop_leading-All :
    (s : Text)
    → All (λ c. is_dangerous c ≡ false) s
    → All (λ c. is_dangerous c ≡ false) (drop_leading s) × (starts_blank (drop_leading s) ≡ false)
unfolding drop_leading
drop_leading-All [] h = (tt, refl)
drop_leading-All (c ∷ s) h = elim (Bool-cases (is_blank c)) [
  | inl e ↦ rw (e, drop_leading) (drop_leading-All s h.1)
  | inr e ↦ rw (e, drop_leading) (h, e)
]

drop_trailing-All :
    (s : Text)
    → All (λ c. is_dangerous c ≡ false) s
    → All (λ c. is_dangerous c ≡ false) (drop_trailing s)
unfolding drop_trailing
drop_trailing-All [] h = tt
drop_trailing-All (c ∷ s) h =
    if_cases (All (λ c. is_dangerous c ≡ false)) (is_empty (drop_trailing s) && is_blank c) tt
      (h.0, drop_trailing-All s h.1)

ends_blank_cons :
    (c : ℕ) (s : Text)
    → ends_blank s ≡ false
    → (is_empty s && is_blank c) ≡ false
    → ends_blank (c ∷ s) ≡ false
ends_blank_cons c [] h e = e
ends_blank_cons c (d ∷ s) h e = h

drop_trailing-ends : (s : Text) → ends_blank (drop_trailing s) ≡ false
unfolding drop_trailing
drop_trailing-ends [] = refl
drop_trailing-ends (c ∷ s) = elim (Bool-cases (is_empty (drop_trailing s) && is_blank c)) [
  | inl e ↦ rw (e, drop_trailing)
  | inr e ↦ rw (e, drop_trailing) (ends_blank_cons c (drop_trailing s) (drop_trailing-ends s) e)
]

drop_trailing-starts : (s : Text) → starts_blank s ≡ false → starts_blank (drop_trailing s) ≡ false
unfolding drop_trailing
drop_trailing-starts [] h = refl
drop_trailing-starts (c ∷ s) h = ground arith

remove_dangerous_same : (s : Text) → All (λ c. is_dangerous c ≡ false) s → remove_dangerous s ≡ s
unfolding remove_dangerous
remove_dangerous_same [] h = refl
remove_dangerous_same (c ∷ s) h = rw (h.0, remove_dangerous_same s h.1)

drop_leading_same : (s : Text) → starts_blank s ≡ false → drop_leading s ≡ s
unfolding drop_leading
drop_leading_same [] h = refl
drop_leading_same (c ∷ s) h = rw h

drop_trailing_same : (s : Text) → ends_blank s ≡ false → drop_trailing s ≡ s
unfolding drop_trailing
drop_trailing_same [] h = refl
drop_trailing_same (c ∷ []) h = rw h
drop_trailing_same (c ∷ d ∷ s) h = ground (arith, drop_trailing_same (d ∷ s) h)

pub sanitize_filename_same : (s : Text) → IsClean s → sanitize_filename s ≡ s
unfolding sanitize_filename
sanitize_filename_same s h =
    rw (
      remove_dangerous_same s h.harmless,
      drop_leading_same s h.starts,
      drop_trailing_same s h.ends,
    )

-- A sanitized name holds none of the characters / \ : * ? " < > | and has no blank at either end;
-- a name that is so already is left as it is, hence sanitizing twice is sanitizing once.
pub sanitize_filename-IsClean :
    (s : Text)
    → IsClean (sanitize_filename s)
      × (IsClean s → sanitize_filename s ≡ s)
      × (sanitize_filename (sanitize_filename s) ≡ sanitize_filename s)
unfolding sanitize_filename
sanitize_filename-IsClean s = (clean, sanitize_filename_same s, sanitize_filename_same _ clean)
  where
    clean : IsClean (sanitize_filename s)
    clean =
        let (harmless, starts) = drop_leading-All (remove_dangerous s) (remove_dangerous-All s) in
        record {
          harmless = drop_trailing-All (drop_leading (remove_dangerous s)) harmless;
          starts = drop_trailing-starts (drop_leading (remove_dangerous s)) starts;
          ends = drop_trailing-ends (drop_leading (remove_dangerous s));
        }

names_test : sanitize_filename (codes " ../a:b.txt \t") ≡ codes "..ab.txt"
unfolding sanitize_filename is_dangerous is_blank
names_test = refl

-- ===== src/MainWindow/UploadName.antt =====
-- The name under which a file is uploaded.
use p2p_server_file_storage.Prelude.{
  ℕ, ◌≡◌, ◌⊎◌, inl, inr, refl, sym, ap, ◌∙◌, true, false, [], ◌∷◌, ◌++◌, append-nil, append_assoc,
  Bool-cases, All, All-append,
}
use p2p_server_file_storage.Text.{Text}
use p2p_server_file_storage.MainWindow.{is_separator, last_part, upload_name}

abbrev IsCut : Text → Type 0
IsCut before =
    (before ≡ [])
    ⊎ ((start : Text) × (c : ℕ) × (before ≡ start ++ c ∷ []) × (is_separator c ≡ true))

-- What a path is behind its last separator: there is none in it, and one right before it, if anything is.
pub record IsLastPart (path part : Text) : Type 0 where
  pub before : Text
  pub spelled : path ≡ before ++ part
  pub plain : All (λ c. is_separator c ≡ false) part
  pub cut : IsCut before

append-IsCut :
    (part before : Text) (c : ℕ) → is_separator c ≡ true → IsCut before → IsCut (part ++ c ∷ before)
append-IsCut part before c sep (inl e) = inr (part, c, ap (λ b. part ++ c ∷ b) e, sep)
append-IsCut part before c sep (inr (start, d, e, sep')) = inr (
  part ++ c ∷ start,
  d,
  ap (λ b. part ++ c ∷ b) e ∙ sym (append_assoc part (c ∷ start) (d ∷ [])),
  sep',
)

last_part-IsLastPart :
    (path part : Text)
    → All (λ c. is_separator c ≡ false) part
    → IsLastPart (part ++ path) (last_part path part)
unfolding last_part
last_part-IsLastPart [] part h = record {
  before = [];
  spelled = append-nil part;
  plain = h;
  cut = inl refl;
}
last_part-IsLastPart (c ∷ path) part h = elim (Bool-cases (is_separator c)) [
  | inl sep ↦
      let r = last_part-IsLastPart path [] tt in
      rw sep (record {
        before = part ++ c ∷ r.before;
        spelled =
            ap (λ l. part ++ c ∷ l) r.spelled
            ∙ sym (append_assoc part (c ∷ r.before) (last_part path []));
        plain = r.plain;
        cut = append-IsCut part r.before c sep r.cut;
      })
  | inr other ↦
      let r =
        last_part-IsLastPart path (part ++ c ∷ [])
          (All-append (λ c. is_separator c ≡ false) part (c ∷ []) h (other, tt)) in
      rw other (record {
        before = r.before;
        spelled = sym (append_assoc part (c ∷ []) path) ∙ r.spelled;
        plain = r.plain;
        cut = r.cut;
      })
]

-- The name under which a path is uploaded is the part behind the last slash or backslash, or all of it
-- where there is neither.
pub upload_name-IsLastPart : (path : Text) → IsLastPart path (upload_name path)
unfolding upload_name
upload_name-IsLastPart path = last_part-IsLastPart path [] tt

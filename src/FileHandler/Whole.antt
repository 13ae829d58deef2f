-- ===== src/FileHandler/Whole.antt =====
-- A file is read and written whole or not at all, and a file time keeps its milliseconds.
use p2p_server_file_storage.Prelude.{
  ℕ, ◌+◌, ◌-◌, ◌*◌, ◌/◌, ◌%◌, ◌^◌, ◌≤◌, ◌<◌, ◌≡◌, refl, ap, ◌∙◌, Bool, true, false, List, [], ◌∷◌,
  append-nil, none, some, arith, leb, ◌==◌, length, length-take, take, take_all, Option-cases, min,
  inl, inr,
}
use p2p_server_file_storage.FileHandler.{
  Windows, dword, read_buffer, read_sized, read_file, write_file, epoch_difference, unix_time,
}

-- Windows opens the file and reads it: `GetFileSizeEx` gives its size, and `ReadFile` as many of its
-- bytes as it is asked for.
pub record Holds (w : Windows) (content : List ℕ) : Type 0 where
  pub opens : w.opens ≡ true
  pub sized : w.file_size ≡ some (length content)
  pub reads : (n : ℕ) → w.reads n ≡ some (take n content)

read_file_asked :
    (w : Windows) (content : List ℕ)
    → Holds w content
    → 0 < length content
    → read_file w ≡ read_buffer (length content) (some (take (dword (length content)) content))
unfolding read_file read_sized
read_file_asked w content h some_byte =
    let sized : (length content == 0) ≡ false = ground (arith, some_byte) in
    rw (h.opens, h.sized, sized, h.reads (dword (length content)), read_sized) refl

equal_refl : (n : ℕ) → (n == n) ≡ true
equal_refl n = ground arith

read_file_small :
    (w : Windows) (content : List ℕ)
    → Holds w content
    → length content < 2 ^ 32
    → read_file w ≡ (true, content)
unfolding read_buffer
read_file_small w [] h small = unfold read_file read_sized in rw (h.opens, h.sized) refl
read_file_small w (c ∷ content) h small =
    let size : ℕ = length (c ∷ content) in
    let whole : take (dword size) (c ∷ content) ≡ c ∷ content =
      take_all (dword size) (c ∷ content) (omega (arith, small)) in
    let none_left : size - size ≡ 0 = omega arith in
    read_file_asked w (c ∷ content) h (omega arith)
    ∙ rw (whole, equal_refl size, none_left) (ap (λ l. (true, l)) (append-nil (c ∷ content)))

read_file_large :
    (w : Windows) (content : List ℕ)
    → Holds w content
    → 2 ^ 32 ≤ length content
    → (read_file w).0 ≡ false
unfolding read_buffer
read_file_large w content h large =
    let n : ℕ = dword (length content) in
    let part = length-take n content in
    let short : (length (take n content) == length content) ≡ false = ground (arith, part, large) in
    ap (λ (r : Bool × List ℕ). r.0) (read_file_asked w content h (omega (arith, large))) ∙ short

-- Windows opens the file for writing, and takes what it is handed, or a part of it, or fails.
pub record Takes (w : Windows) : Type 0 where
  pub creates : w.creates ≡ true
  pub bounded : (part : List ℕ) (n : ℕ) → w.writes part ≡ some n → n ≤ length part

write_file_whole :
    (w : Windows) (buffer : List ℕ)
    → Takes w
    → (write_file w buffer).0 ≡ true
    → (write_file w buffer).1 ≡ buffer
unfolding write_file
write_file_whole w buffer h e =
    let handed : List ℕ = take (dword (length buffer)) buffer in
    let size : length handed ≡ min (dword (length buffer)) (length buffer) =
      length-take (dword (length buffer)) buffer in
    elim (Option-cases (w.writes handed)) [
      | inl lost ↦ ground (arith, e, h.creates, lost)
      | inr (n, taken) ↦
          let whole : n ≡ length buffer = ground (arith, e, h.creates, taken) in
          rw h.creates (
            take_all (dword (length buffer)) buffer
              (omega (arith, size, whole, h.bounded handed n taken)))
    ]

-- Where Windows opens the file and reads as many of its bytes as it is asked for, `ReadFile` gives the
-- whole file below 4 GiB, and fails for a larger one; where it creates the file and takes at most what
-- it is handed, `WriteFile` returns true only if it was handed the whole buffer.
pub file_whole :
    (w : Windows) (content buffer : List ℕ)
    → Holds w content
    → Takes w
    → (length content < 2 ^ 32 → read_file w ≡ (true, content))
      × (2 ^ 32 ≤ length content → (read_file w).0 ≡ false)
      × ((write_file w buffer).0 ≡ true → (write_file w buffer).1 ≡ buffer)
file_whole w content buffer h k =
    (read_file_small w content h, read_file_large w content h, write_file_whole w buffer k)

-- A file time from 1970 on is converted to the millisecond in which it lies; an earlier one is not
-- converted.
pub unix_time_lem :
    (ticks : ℕ)
    → (epoch_difference ≤ ticks
        → (ms : ℕ) × (unix_time ticks ≡ some ms)
          × (epoch_difference + ms * 10000 ≤ ticks)
          × (ticks < epoch_difference + (ms + 1) * 10000))
      × (ticks < epoch_difference → unix_time ticks ≡ none)
unfolding unix_time
unix_time_lem ticks = (later, λ h. ground (arith, h))
  where
    later :
        epoch_difference ≤ ticks
        → (ms : ℕ) × (unix_time ticks ≡ some ms)
          × (epoch_difference + ms * 10000 ≤ ticks)
          × (ticks < epoch_difference + (ms + 1) * 10000)
    later h =
        let ms : ℕ = (ticks - epoch_difference) / 10000 in
        let test : leb epoch_difference ticks ≡ true = ground (arith, h) in
        let joined : ms / 1000 * 1000 + ms % 1000 ≡ ms = omega arith in
        (ms, rw (test, joined) refl, omega (arith, h), omega (arith, h))

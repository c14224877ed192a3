-- ===== src/Documents/Uploads/Whole.antt =====
-- What is read is the whole file, or too much.
use propnest_api.Base.{
  ℕ, zero, suc, ◌+◌, ◌-◌, ◌≤◌, ◌<◌, ◌≡◌, true, false, Option, some, List, [], ◌∷◌, ◌++◌, ltb, min,
  length, take, drop, refl, sym, ap, ◌∙◌, arith, Bool-cases, inl, inr, length-append,
}
use mathlib.Core.List.{append-nil, append_assoc}
use propnest_api.Core.Text.{Text, is_empty}
use propnest_api.Core.Error.{Result, ok, err}
use propnest_api.Documents.Uploads.{
  limited, Limits, Stream, IsFile, Upload, sniff_content_type, declared_type, accepted_type,
  within_limit, read_chunks, copy, read_and_validate_upload,
}

take-nil : (n : ℕ) → take {A = ℕ} n [] ≡ []
take-nil zero = refl
take-nil (suc n) = refl

take-take-drop :
    (m n : ℕ) (xs : List ℕ)
    → m ≤ n
    → take m xs ++ take (n - length (take m xs)) (drop m xs) ≡ take n xs
take-take-drop zero n xs h = let all : n - 0 ≡ n = omega arith in rw all refl
take-take-drop (suc m) n [] h = take-nil (n - 0) ∙ sym (take-nil n)
take-take-drop (suc m) zero (x ∷ xs) h = ground arith
take-take-drop (suc m) (suc n) (x ∷ xs) h =
    let fewer : suc n - suc (length (take m xs)) ≡ n - length (take m xs) = omega arith in
    rw fewer (ap (λ ys. x ∷ ys) (take-take-drop m n xs (omega (arith, h))))

-- nothing is read only at the end
take-nil_only : (m : ℕ) (xs : List ℕ) → 0 < m → take m xs ≡ [] → xs ≡ []
take-nil_only zero xs pos h = ground arith
take-nil_only (suc m) [] pos h = refl
take-nil_only (suc m) (x ∷ xs) pos h = cc

length-take-lt : (n : ℕ) (xs : List ℕ) → length xs < n → take n xs ≡ xs
length-take-lt zero xs h = ground arith
length-take-lt (suc n) [] h = refl
length-take-lt (suc n) (x ∷ xs) h = ap (λ ys. x ∷ ys) (length-take-lt n xs (omega (arith, h)))

length-take : (n : ℕ) (xs : List ℕ) → length (take n xs) ≡ min n (length xs)
length-take zero xs = omega arith
length-take (suc n) [] = omega arith
length-take (suc n) (x ∷ xs) = omega (arith, length-take n xs)

joined :
    (a b c : List ℕ) (total : ℕ)
    → ◌≡◌ {A = Option (List ℕ × ℕ)}
        (some (a ++ b ++ c, total + length b + length c))
        (some (a ++ (b ++ c), total + length (b ++ c)))
joined a b c total =
    let sizes : total + length b + length c ≡ total + length (b ++ c) =
      omega (arith, length-append b c) in
    rw (append_assoc a b c, sizes) refl

-- sizes that make sense
pub record IsValid (limits : Limits) : Type 0 where
  pub chunk : 0 < limits.upload_chunk_size
  pub peek : limits.signature_peek_size ≤ limits.max_file_size

module _ {S : Type 0} {stream : Stream S} {rest : S → List ℕ} (file : IsFile stream rest)
    (limits : Limits) (valid : IsValid limits) where
  -- what the loop is to return
  abbrev Reads : ℕ → Type 0
  Reads fuel =
      (s : S) (spooled : List ℕ) (total left : ℕ)
      → left < fuel
      → read_chunks limits stream fuel s spooled total left
        ≡ some (spooled ++ take left (rest s), total + length (take left (rest s)))

  read_chunk :
      (fuel : ℕ) (s s' : S) (spooled : List ℕ) (total left m : ℕ) (chunk : List ℕ)
      → Reads fuel
      → left < suc fuel
      → 0 < m
      → m ≤ left
      → chunk ≡ take m (rest s)
      → rest s' ≡ drop m (rest s)
      → (let r : Option (List ℕ × ℕ) = elim (is_empty chunk) [
        | true ↦ some (spooled, total)
        | false ↦
            read_chunks limits stream fuel s'
              (spooled ++ chunk)
              (total + length chunk)
              (left - length chunk)
      ] in
          r ≡ some (spooled ++ take left (rest s), total + length (take left (rest s))))
  read_chunk fuel s s' spooled total left m [] ih h pos le e e' =
      let nothing : take left (rest s) ≡ [] =
        ap (take left) (take-nil_only m (rest s) pos (sym e)) ∙ take-nil left in
      let same : total + 0 ≡ total = omega arith in rw (nothing, append-nil spooled, same) refl
  read_chunk fuel s s' spooled total left m (c ∷ cs) ih h pos le e e' =
      let chunk : List ℕ = c ∷ cs in
      let whole : chunk ++ take (left - length chunk) (rest s') ≡ take left (rest s) =
        (λ i. e i ++ take (left - length (e i)) (e' i)) ∙ take-take-drop m left (rest s) le in
      let later =
        ih s' (spooled ++ chunk) (total + length chunk) (left - length chunk)
          (omega (arith, h, pos, le)) in
      later
      ∙ joined spooled chunk (take (left - length chunk) (rest s')) total
      ∙ ap (λ (all : List ℕ). some (spooled ++ all, total + length all)) whole

  read_chunks-take : (fuel : ℕ) → Reads fuel
  unfolding read_chunks
  read_chunks-take zero s spooled total left h = ground arith
  read_chunks-take (suc fuel) s spooled total left h = elim (Bool-cases (ltb 0 left)) [
    | inr none_left ↦
        let zero_left : left ≡ 0 = ground arith in
        let same : total + 0 ≡ total = omega arith in rw (zero_left, append-nil spooled, same) refl
    | inl more ↦
        let (read, after) = file.read_lem (min limits.upload_chunk_size left) s in
        let m : ℕ = min limits.upload_chunk_size left in
        rw (more, read_chunks)
          (read_chunk fuel s (stream.read m s).1 spooled total left m (stream.read m s).0
            (read_chunks-take fuel) h (ground (arith, valid.chunk)) (omega arith) read after)
  ]

-- the limit asked of the whole file, and of as much of it as is read
within_limit-take :
    (limits : Limits) (t : Text) (bytes : List ℕ)
    → within_limit limits t
        (take (limits.max_file_size + 1) bytes, length (take (limits.max_file_size + 1) bytes))
      ≡ within_limit limits t (bytes, length bytes)
within_limit-take limits t bytes =
    let size = length-take (limits.max_file_size + 1) bytes in
    elim (Bool-cases (ltb limits.max_file_size (length bytes))) [
      | inl large ↦ ground (arith, size, large)
      | inr small ↦
          let whole : take (limits.max_file_size + 1) bytes ≡ bytes =
            length-take-lt (limits.max_file_size + 1) bytes (ground (arith, small)) in
          rw whole refl
    ]

-- a file with no streams and no chunks: its first bytes show the type, and its size is in the limit
abbrev pub judged : Limits → List ℕ → Result Text → Result Upload
judged limits bytes (err e) = err e
judged limits bytes (ok t) = within_limit limits t (bytes, length bytes)

module _ {S : Type 0} {stream : Stream S} {rest : S → List ℕ} (file : IsFile stream rest)
    (limits : Limits) (valid : IsValid limits) where
  copy-judged :
      (fuel : ℕ) (s s' : S) (prefix : List ℕ) (r : Result Text)
      → limits.max_file_size + 1 < fuel
      → prefix ≡ take limits.signature_peek_size (rest s)
      → rest s' ≡ drop limits.signature_peek_size (rest s)
      → copy limits stream fuel s' prefix r ≡ some (judged limits (rest s) r)
  copy-judged fuel s s' prefix (err e) h p q = refl
  copy-judged fuel s s' prefix (ok t) h p q =
      let most : ℕ = limits.max_file_size + 1 in
      let looped =
        read_chunks-take file limits valid fuel s' prefix (length prefix) (most - length prefix)
          (omega (arith, h)) in
      let whole : prefix ++ take (most - length prefix) (rest s') ≡ take most (rest s) =
        (λ i. p i ++ take (most - length (p i)) (q i))
        ∙ take-take-drop limits.signature_peek_size most (rest s) (omega (arith, valid.peek)) in
      let size : length prefix + length (take (most - length prefix) (rest s'))
          ≡ length (take most (rest s)) =
        sym (length-append prefix (take (most - length prefix) (rest s'))) ∙ ap length whole in
      ap (limited limits t) looped
      ∙ (λ i. some (within_limit limits t (whole i, size i)))
      ∙ ap some (within_limit-take limits t (rest s))

  -- With a file in a buffer or on disk, more fuel than the largest file has bytes, chunks that are
  -- not empty and a signature that is no larger than the largest file, the loop ends, and the result
  -- is that of the whole file: the type that its first bytes show is allowed and the declared one,
  -- and it is not too large; then the copy is the file, byte for byte, with that type and its size,
  -- and else the upload is refused.
  pub read_and_validate_upload-judged :
      (fuel : ℕ) (content_type : Option Text) (file_type : Text) (s : S)
      → limits.max_file_size + 1 < fuel
      → read_and_validate_upload limits stream fuel content_type file_type s
        ≡ some (
            judged limits (rest s) (
              accepted_type
                (sniff_content_type (take limits.signature_peek_size (rest s)))
                (declared_type content_type file_type)))
  unfolding read_and_validate_upload
  read_and_validate_upload-judged fuel content_type file_type s h =
      let (prefix, after) = file.read_lem limits.signature_peek_size s in
      copy-judged fuel s (stream.read limits.signature_peek_size s).1
        (stream.read limits.signature_peek_size s).0 _ h prefix after
      ∙ ap
          (λ p. some (
            judged limits (rest s)
              (accepted_type (sniff_content_type p) (declared_type content_type file_type))))
          prefix

-- ===== src/Documents/Uploads.antt =====
-- The reading and the validation of an uploaded file
-- (app/documents/services/document_service.py). The file is a stream whose `read` is a parameter;
-- the spooled copy is the list of its bytes.
pub mod Whole
use propnest_api.Base.{
  ℕ, zero, suc, ◌+◌, ◌-◌, Bool, true, false, Option, none, some, List, [], ◌∷◌, ◌++◌, not, any, ltb,
  min, length, take, drop, ◌≡◌, if◌then◌else◌,
}
use propnest_api.Core.Text.{Text, codes, same_text, starts_with, is_empty}
use propnest_api.Core.Error.{Result, ok, err, document_upload}

-- `_MAX_FILE_SIZE`, `_SIGNATURE_PEEK_SIZE`, `_UPLOAD_CHUNK_SIZE`
pub record Limits : Type 0 where
  pub max_file_size : ℕ
  pub signature_peek_size : ℕ
  pub upload_chunk_size : ℕ

abbrev pub service_limits : Limits
service_limits = record {
  max_file_size = 10485760;
  signature_peek_size = 4096;
  upload_chunk_size = 65536;
}

-- a file-like object
pub record Stream (S : Type 0) : Type 0 where
  pub read : ℕ → S → List ℕ × S

-- What Python documents for a file in a buffer or on disk: `read` gives the next bytes, and fewer
-- than it was asked for only at the end. `rest` is what the stream still has.
pub record IsFile {S : Type 0} (stream : Stream S) (rest : S → List ℕ) : Type 0 where
  pub read_lem :
      (n : ℕ) (s : S)
      → ((stream.read n s).0 ≡ take n (rest s)) × (rest (stream.read n s).1 ≡ drop n (rest s))

abbrev pub pdf : Text
pdf = codes "application/pdf"

abbrev pub png : Text
png = codes "image/png"

abbrev pub jpeg : Text
jpeg = codes "image/jpeg"

abbrev pub jpg : Text
jpg = codes "image/jpg"

abbrev pub msword : Text
msword = codes "application/msword"

abbrev pub docx : Text
docx = codes "application/vnd.openxmlformats-officedocument.wordprocessingml.document"

-- `_ALLOWED_MIME`
abbrev pub is_allowed_mime : Text → Bool
is_allowed_mime t = any (same_text t) (pdf ∷ png ∷ jpeg ∷ jpg ∷ msword ∷ docx ∷ [])

-- `_sniff_content_type`
unfoldable pub sniff_content_type : List ℕ → Option Text
sniff_content_type bytes =
    if starts_with (37 ∷ 80 ∷ 68 ∷ 70 ∷ 45 ∷ []) bytes
    then some pdf
    else if starts_with (137 ∷ 80 ∷ 78 ∷ 71 ∷ 13 ∷ 10 ∷ 26 ∷ 10 ∷ []) bytes
    then some png
    else if starts_with (255 ∷ 216 ∷ 255 ∷ []) bytes
    then some jpeg
    else if starts_with (208 ∷ 207 ∷ 17 ∷ 224 ∷ 161 ∷ 177 ∷ 26 ∷ 225 ∷ []) bytes
    then some msword
    else if starts_with (80 ∷ 75 ∷ 3 ∷ 4 ∷ []) bytes
    then some docx
    else none

-- `content_type or file_type`, with the alias for JPEG
abbrev pub given_type : Option Text → Text → Text
given_type none file_type = file_type
given_type (some t) file_type = if is_empty t then file_type else t

unfoldable pub declared_type : Option Text → Text → Text
declared_type content_type file_type =
    if same_text (given_type content_type file_type) jpg
    then jpeg
    else given_type content_type file_type

-- the type that the first bytes show, if it is allowed and the declared one
abbrev pub accepted_type : Option Text → Text → Result Text
accepted_type none declared = err document_upload
accepted_type (some sniffed) declared =
    if not (is_allowed_mime sniffed)
    then err document_upload
    else if not (same_text sniffed declared)
    then err document_upload
    else ok sniffed

-- what is returned: the copy, its type and its size
pub record Upload : Type 0 where
  pub bytes : List ℕ
  pub content_type : Text
  pub size : ℕ

abbrev pub within_limit : Limits → Text → List ℕ × ℕ → Result Upload
within_limit limits t (spooled, total) =
    if ltb limits.max_file_size total
    then err document_upload
    else ok (record { bytes = spooled; content_type = t; size = total })

abbrev pub limited : Limits → Text → Option (List ℕ × ℕ) → Option (Result Upload)
limited limits t none = none
limited limits t (some r) = some (within_limit limits t r)

module _ {S : Type 0} (limits : Limits) (stream : Stream S) where
  -- `while remaining_cap > 0`, on fuel; no result where the fuel runs out
  unfoldable pub read_chunks : ℕ → S → List ℕ → ℕ → ℕ → Option (List ℕ × ℕ)
  read_chunks zero s spooled total remaining_cap = none
  read_chunks (suc fuel) s spooled total remaining_cap = elim (ltb 0 remaining_cap) [
    | false ↦ some (spooled, total)
    | true ↦
        let (chunk, s') = stream.read (min limits.upload_chunk_size remaining_cap) s in
        elim (is_empty chunk) [
          | true ↦ some (spooled, total)
          | false ↦
              read_chunks fuel s' (spooled ++ chunk) (total + length chunk)
                (remaining_cap - length chunk)
        ]
  ]

  -- the loop and what follows it, for a file whose type is accepted
  abbrev pub copy : ℕ → S → List ℕ → Result Text → Option (Result Upload)
  copy fuel s prefix (err e) = some (err e)
  copy fuel s prefix (ok t) =
      limited limits t
        (read_chunks fuel s prefix (length prefix) (limits.max_file_size + 1 - length prefix))

  -- `_read_and_validate_upload`
  unfoldable pub read_and_validate_upload : ℕ → Option Text → Text → S → Option (Result Upload)
  read_and_validate_upload fuel content_type file_type s =
      let (prefix, s') = stream.read limits.signature_peek_size s in
      copy fuel s' prefix
        (accepted_type (sniff_content_type prefix) (declared_type content_type file_type))

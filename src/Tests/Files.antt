-- ===== src/Tests/Files.antt =====
-- The theorems on documents, applied to a small file and to a row.
use propnest_api.Base.{Option, ℕ, ◌≡◌, none, some, List, [], ◌∷◌, take, drop, refl, arith}
use propnest_api.Core.Text.{codes}
use propnest_api.Core.Access
use propnest_api.Core.Access.{
  authorize_user_to_property, resolve_property, validate_related_resources,
}
use propnest_api.Core.Audit.{write_audit_log}
use propnest_api.Core.Constraints.{document_violation}
use propnest_api.Core.Repository.{get_by_id, update, flush}
use propnest_api.Core.Schema.{Tables, find, contract_key}
use propnest_api.Core.Session.{begin, ◌>>=◌}
use propnest_api.Models.AuditLog.{AuditAction}
use propnest_api.Models.AuditLog.EntityType
use propnest_api.Models.Contract.{Contract}
use propnest_api.Models.Document.{Document}
use propnest_api.Documents.Links.{
  Links, update_document, get_document, prepare_document_context, resolve_document_relationship,
  resolve_by_contract, validate_links, require_collection,
}
use propnest_api.Documents.Links.Agrees.{update_document-Agrees}
use propnest_api.Tests.{ana, let_flat}
use propnest_api.Documents.Uploads.{
  Limits, Stream, pdf, sniff_content_type, declared_type, accepted_type, read_and_validate_upload,
}
use propnest_api.Documents.Uploads.Whole.{judged, read_and_validate_upload-judged}

-- a file in memory is what is left of it
abbrev in_memory : Stream (List ℕ)
in_memory = record { read = λ n bytes. (take n bytes, drop n bytes) }

abbrev small : Limits
small = record { max_file_size = 8; signature_peek_size = 5; upload_chunk_size = 2 }

-- `%PDF-` and three bytes
abbrev bytes : List ℕ
bytes = 37 ∷ 80 ∷ 68 ∷ 70 ∷ 45 ∷ 1 ∷ 2 ∷ 3 ∷ []

read_and_validate_upload-judged_example :
    read_and_validate_upload small in_memory 10 none pdf bytes
    ≡ some (
        judged small bytes
          (accepted_type (sniff_content_type (take 5 bytes)) (declared_type none pdf)))
read_and_validate_upload-judged_example =
    read_and_validate_upload-judged (record { read_lem = λ n s. (refl, refl) }) small
      (record { chunk = omega arith; peek = omega arith }) 10 none pdf bytes (omega arith)

abbrev deed : Document
deed = record {
  id = 60;
  file_name = codes "deed.pdf";
  file_url = codes "minio/documents/deed.pdf";
  file_type = pdf;
  contract_id = none;
  property_id = some 10;
  tenant_id = none;
  collection_id = none;
}

abbrev filed : Tables
filed = record let_flat { documents = deed ∷ [] }

-- to the contract of the flat
abbrev to_contract : Links
to_contract = record {
  property_id = none;
  contract_id = some 30;
  tenant_id = none;
  collection_id = none;
}

abbrev linked_deed : Document
linked_deed = record deed { contract_id = some 30; tenant_id = some 20 }

abbrev refiled : Tables
refiled = record let_flat {
  documents = linked_deed ∷ [];
  audit_logs =
      record {
        actor_id = some 2;
        action = AuditAction.update;
        entity_type = EntityType.document;
        entity_id = 60;
      }
      ∷ [];
}

update_document-Agrees_example :
    (c : Contract) × (find 30 let_flat.contracts ≡ some c)
    × (◌≡◌ {A = Option ℕ} (some 10) (some c.property_id))
    × (◌≡◌ {A = Option ℕ} (some 20) (some c.tenant_id))
unfolding update_document get_document prepare_document_context resolve_document_relationship
    resolve_by_contract validate_links require_collection validate_related_resources ◌>>=◌ get_by_id
    update flush authorize_user_to_property resolve_property write_audit_log Access.get_property
    Access.get_contract document_violation
update_document-Agrees_example =
    update_document-Agrees 60 to_contract ana
      (begin (record { tables = filed; next_id = 100; cash_seq = 41 })) {d = linked_deed}
      {s' = record { committed = refiled; working = refiled; next_id = 100; cash_seq = 41 }} refl

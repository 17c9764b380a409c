-- ===== src/Cdc/Indexer.antt =====
-- internal/infrastructure/elasticsearch: user_indexer.go and audit_indexer.go, over an index of
-- Elasticsearch. Of an error only what the code says itself is kept.
use portal_backend.Prelude.{
  ℕ, Bool, true, false, not, ◌≡◌, Option, none, some, ltb, ◌==◌, if◌then◌else◌,
}
use portal_backend.Text.{Text, codes, text_eq}
use portal_backend.Cdc.Documents.{UserDocument, AuditLogDocument}
use portal_backend.Cdc.Mapping.{IndexBody, user_mapping, audit_log_mapping}

-- what the client answers to a request: an error of its own, or a status
pub data Reply : Type 0 where
  no_answer : Reply
  answered : ℕ → Reply

-- Response.IsError
abbrev pub is_error : ℕ → Bool
is_error code = ltb 299 code

abbrev pub succeeded : Reply → Bool
succeeded no_answer = false
succeeded (answered code) = not (is_error code)

abbrev pub is_gone : Reply → Bool
is_gone no_answer = false
is_gone (answered code) = if code == 404 then true else not (is_error code)

-- An index of Elasticsearch, whose state is `S` and whose documents are texts by their ids. A write
-- that is reported as done is visible (refresh=true), and a request touches no document but its own.
pub record Cluster (S : Type 0) : Type 0 where
  pub exists : S → Reply × S
  pub create : IndexBody → S → Reply × S
  pub index : Text → Text → S → Reply × S
  pub delete : Text → S → Reply × S
  pub get : S → Text → Option Text
  pub index_stores :
      (id body : Text) (s : S)
      → succeeded (index id body s).0 ≡ true
      → (other : Text) → text_eq id other ≡ true
      → get (index id body s).1 other ≡ some body
  pub index_keeps :
      (id body : Text) (s : S) (other : Text)
      → text_eq id other ≡ false
      → get (index id body s).1 other ≡ get s other
  pub delete_removes :
      (id : Text) (s : S)
      → is_gone (delete id s).0 ≡ true
      → (other : Text) → text_eq id other ≡ true
      → get (delete id s).1 other ≡ none
  pub delete_keeps :
      (id : Text) (s : S) (other : Text)
      → text_eq id other ≡ false
      → get (delete id s).1 other ≡ get s other

-- an error, where there is one, and the state that is left
abbrev pub Act : Type 0 → Type 0
Act S = S → Option Text × S

module _ {S : Type 0} (c : Cluster S) where
  abbrev pub create_error : Text → Text → Reply → Option Text
  create_error failing failed no_answer = some failing
  create_error failing failed (answered code) = if is_error code then some failed else none

  abbrev pub after_exists : IndexBody → Text → Text → Text → Text → Reply → Act S
  after_exists mapping checking checked failing failed no_answer s = (some checking, s)
  after_exists mapping checking checked failing failed (answered code) s =
      if code == 200
      then (none, s)
      else if not (code == 404)
      then (some checked, s)
      else let (r, s') = c.create mapping s in (create_error failing failed r, s')

  -- EnsureIndex, for a mapping and the four messages
  unfoldable pub ensure_index : IndexBody → Text → Text → Text → Text → Act S
  ensure_index mapping checking checked failing failed s =
      let (r, s') = c.exists s in after_exists mapping checking checked failing failed r s'

  unfoldable pub ensure_user_index : Act S
  ensure_user_index =
      ensure_index user_mapping (codes "check index exists") (codes "check index exists failed")
        (codes "create index") (codes "create index failed")

  unfoldable pub ensure_audit_index : Act S
  ensure_audit_index =
      ensure_index audit_log_mapping (codes "check audit log index exists")
        (codes "check audit log index exists failed") (codes "create audit log index")
        (codes "create audit log index failed")

  abbrev pub index_error : Text → Text → Reply → Option Text
  index_error failing failed no_answer = some failing
  index_error failing failed (answered code) = if is_error code then some failed else none

  abbrev pub delete_error : Text → Text → Reply → Option Text
  delete_error failing failed no_answer = some failing
  delete_error failing failed (answered code) =
      if code == 404 then none else if is_error code then some failed else none

  -- Index, of a document that json.Marshal wrote, under an id
  unfoldable pub index_body : Text → Text → Text → Text → Option Text → Act S
  index_body marshalling failing failed id none s = (some marshalling, s)
  index_body marshalling failing failed id (some body) s =
      let (r, s') = c.index id body s in (index_error failing failed r, s')

  unfoldable pub delete_id : Text → Text → Text → Act S
  delete_id failing failed id s = let (r, s') = c.delete id s in (delete_error failing failed r, s')

  unfoldable pub index_user : (UserDocument → Option Text) → UserDocument → Act S
  index_user marshal doc =
      index_body (codes "marshal user document") (codes "index user document")
        (codes "index user document failed") doc.id (marshal doc)

  unfoldable pub delete_user : Text → Act S
  delete_user = delete_id (codes "delete user document") (codes "delete user document failed")

  unfoldable pub index_audit_log : (AuditLogDocument → Option Text) → AuditLogDocument → Act S
  index_audit_log marshal doc =
      index_body (codes "marshal audit log document") (codes "index audit log document")
        (codes "index audit log document failed") doc.id (marshal doc)

  unfoldable pub delete_audit_log : Text → Act S
  delete_audit_log =
      delete_id (codes "delete audit log document") (codes "delete audit log document failed")

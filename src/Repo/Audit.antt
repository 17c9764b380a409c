-- ===== src/Repo/Audit.antt =====
-- internal/repository/impl/audit_log_repository.go
use portal_backend.Prelude.{
  ℕ, zero, suc, ◌-◌, ◌*◌, Bool, true, false, ◌&&◌, ◌||◌, List, ◌∷◌, ◌++◌, [], Option, none, some,
  length, select, take, drop, leb, ltb, ◌==◌, if◌then◌else◌,
}
use portal_backend.Text.{Text, text_eq, is_empty}
use portal_backend.Domain.{action_text}
use portal_backend.Model.{AuditLog}
use portal_backend.World.{ok, M, Ctx, moment, fresh, pure, ◌>>=◌, query, write}

unfoldable pub create : Ctx → AuditLog → M (Unit {0})
create c l =
    write c (λ w db. ok tt)
      (λ w db. record db {
        action_logs = db.action_logs ++ record l { id = fresh w; created_at = moment w } ∷ [];
      })

-- page numbers: 0 stands for every value that is not positive
pub record AuditLogListFilter : Type 0 where
  pub action : Text
  pub actor_user_id : Option ℕ
  pub target_user_id : Option ℕ
  pub from_time : Option ℕ
  pub to_time : Option ℕ
  pub page : ℕ
  pub page_size : ℕ

abbrev pub same_id : Option ℕ → Option ℕ → Bool
same_id none i = true
same_id (some j) none = false
same_id (some j) (some i) = i == j

abbrev pub not_before : Option ℕ → ℕ → Bool
not_before none t = true
not_before (some from) t = leb from t

abbrev pub not_after : Option ℕ → ℕ → Bool
not_after none t = true
not_after (some to) t = leb t to

unfoldable pub matches : AuditLogListFilter → AuditLog → Bool
matches f l =
    (is_empty f.action || text_eq (action_text l.action) f.action)
    && same_id f.actor_user_id l.actor_user_id
    && same_id f.target_user_id l.target_user_id
    && not_before f.from_time l.created_at
    && not_after f.to_time l.created_at

abbrev pub clamp_page : ℕ → ℕ
clamp_page zero = 1
clamp_page (suc n) = suc n

abbrev pub clamp_page_size : ℕ → ℕ
clamp_page_size n = if n == 0 then 20 else if ltb 100 n then 100 else n

-- ORDER BY created_at DESC
abbrev pub insert_newest : AuditLog → List AuditLog → List AuditLog
insert_newest l [] = l ∷ []
insert_newest l (m ∷ ms) =
    if leb m.created_at l.created_at then l ∷ m ∷ ms else m ∷ insert_newest l ms

unfoldable pub newest_first : List AuditLog → List AuditLog
newest_first [] = []
newest_first (l ∷ ls) = insert_newest l (newest_first ls)

unfoldable pub list : Ctx → AuditLogListFilter → M (List AuditLog × ℕ)
unfolding newest_first matches
list c f = do
  total ← query c (λ w db. ok (length (select (matches f) db.action_logs)))
  logs ← query c (λ w db. ok (
      take (clamp_page_size f.page_size) (
        drop ((clamp_page f.page - 1) * clamp_page_size f.page_size)
          (newest_first (select (matches f) db.action_logs)))))
  pure (logs, total)

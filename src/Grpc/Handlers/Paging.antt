-- ===== src/Grpc/Handlers/Paging.antt =====
-- The page of users that is returned.
use mathlib.Core.Path.{subst}
use portal_backend.Access.Gate.{same_value}
use portal_backend.Prelude.{
  ℤ, pos, negsuc, ℕ, suc, zero, ◌≤◌, ◌≡◌, refl, List, [], ◌∷◌, Option, none, length, take, drop,
  arith, length-take-le,
}
use portal_backend.Text.{Text}
use portal_backend.Model.{User, Db}
use portal_backend.World.{World, ok, base_ctx}
use portal_backend.World.Returns.{
  Returns, Returns-bind, Returns-ensure, Returns-ask, Returns-or_none, Returns-pure, Returns-ok,
  Returns-map_err, Returns-query, Returns-always, Returns-log_err, Returns-mono,
}
use portal_backend.Repo.Users
use portal_backend.Service.AdminService
use portal_backend.Service.Audit.{AuditMeta, AuditUser}
use portal_backend.Access.Authenticator.{Principal}
use portal_backend.Grpc.Messages.{ListUsersRequest, ListUsersResponse, Response, users_response}
use portal_backend.Grpc.Mapper
use portal_backend.Grpc.Server.{Server, Call}
use portal_backend.Grpc.Handlers.Fields
use portal_backend.Grpc.Handlers.AdminServer.{list_users_handler}

length-users_to_pb :
    (show_id show_date : ℕ → Text) (us : List User)
    → length (Mapper.users_to_pb show_id show_date us) ≡ length us
unfolding Mapper.users_to_pb
length-users_to_pb f g [] = refl
length-users_to_pb f g (u ∷ us) = ground (arith, length-users_to_pb f g us)

-- a page and its size are in their bounds
abbrev InBounds : ℕ × ℕ → Type 0
InBounds (page, size) = (1 ≤ page) × (1 ≤ size) × (size ≤ 100)

at_least_one-Returns : (i : ℤ) (w : World) → Returns (Fields.at_least_one i) w (λ n _. 1 ≤ n)
unfolding Fields.at_least_one
at_least_one-Returns (pos zero) w = Returns-or_none _ none λ a h. cc
at_least_one-Returns (pos (suc n)) w = Returns-pure (omega arith)
at_least_one-Returns (negsuc n) w = Returns-or_none _ none λ a h. cc

paging-Returns :
    (req : ListUsersRequest) (w : World) → Returns (Fields.paging req) w (λ p _. InBounds p)
unfolding Fields.paging
paging-Returns req w = Returns-bind (
    Returns-mono (at_least_one-Returns _ w) λ page w1 p. Returns-bind (
      Returns-mono (at_least_one-Returns _ w1)
        λ size w2 q. Returns-bind (Returns-ensure _ _ λ r. Returns-pure (p, q, ground arith))))

length-preload_all : (db : Db) (us : List User) → length (Users.preload_all db us) ≡ length us
length-preload_all db [] = refl
length-preload_all db (u ∷ us) = ground (arith, length-preload_all db us)

module _ {A : Type 0} where
  length-drop-le : (n : ℕ) (xs : List A) → length (drop n xs) ≤ length xs
  length-drop-le zero xs = omega arith
  length-drop-le (suc n) [] = omega arith
  length-drop-le (suc n) (x ∷ xs) = omega (arith, length-drop-le n xs)

  length-take-length : (n : ℕ) (xs : List A) → length (take n xs) ≤ length xs
  length-take-length zero xs = omega arith
  length-take-length (suc n) [] = omega arith
  length-take-length (suc n) (x ∷ xs) = omega (arith, length-take-length n xs)

page_fits :
    (db : Db) (n k : ℕ) (us : List User) (a : List User)
    → ok (Users.preload_all db (take n (drop k us))) ≡ ok a
    → (length a ≤ n) × (length a ≤ length us)
page_fits db n k us a h =
    subst (λ l. (length l ≤ n) × (length l ≤ length us)) (same_value _ a h)
      (
        omega (
          arith,
          length-preload_all db (take n (drop k us)),
          length-take-le n (drop k us),
          length-take-length n (drop k us),
          length-drop-le k us,
        ),
        omega (
          arith,
          length-preload_all db (take n (drop k us)),
          length-take-le n (drop k us),
          length-take-length n (drop k us),
          length-drop-le k us,
        ),
      )

find_users-Returns :
    (f : Users.UserListFilter) (w : World)
    → Returns
        (Users.list_users base_ctx f)
        w
        (λ r _. (length r.0 ≤ f.page_size) × (length r.0 ≤ r.1))
unfolding Users.list_users Users.matches
find_users-Returns f w = Returns-bind (
    Returns-query _ _ λ total is_total. Returns-bind (
      Returns-query _ _ λ users is_users. Returns-pure (
        let fits = page_fits _ _ _ _ users is_users in
        (fits.0, subst (λ n. length users ≤ n) (same_value _ total is_total) fits.1))))

abbrev Page : AdminService.ListUsersResult → ℕ → ℕ → Type 0
Page r page size =
    (length r.users ≤ r.page_size)
    × (length r.users ≤ r.total)
    × (r.page ≡ page)
    × (r.page_size ≡ size)

list_users-Returns :
    (meta : Option AuditMeta) (actor : Option AuditUser) (f : AdminService.UsersFilter) (w : World)
    → Returns (AdminService.list_users meta actor f) w (λ r _. Page r f.page f.page_size)
unfolding AdminService.list_users
list_users-Returns meta actor f w = Returns-bind (
    Returns-always _ λ role_id. Returns-bind (
      Returns-ensure _ _ λ _. Returns-bind (
        Returns-map_err _ _ (
          Returns-mono (find_users-Returns _ _) λ found w1 (p, q).
            Returns-bind (Returns-log_err _ (Returns-pure (p, q, refl, refl)))))))

-- the response to a listing: a page within its bounds, and no more users than it or than there are
abbrev pub Paged : Response → Type 0
Paged resp =
    (r : ListUsersResponse) × (resp ≡ users_response r)
    × (length r.items ≤ r.page_size)
    × (length r.items ≤ r.total)
    × (1 ≤ r.page)
    × (1 ≤ r.page_size)
    × (r.page_size ≤ 100)

paged :
    (show_id show_date : ℕ → Text) (r : AdminService.ListUsersResult) (page size : ℕ)
    → Page r page size
    → InBounds (page, size)
    → Paged (users_response (Mapper.list_users_result_to_pb show_id show_date r))
unfolding Mapper.list_users_result_to_pb
paged f g r page size (a, b, same_page, same_size) (c, d, e) = (
  _,
  refl,
  omega (arith, a, length-users_to_pb f g r.users),
  omega (arith, b, length-users_to_pb f g r.users),
  omega (arith, c, same_page),
  omega (arith, d, same_size),
  omega (arith, e, same_size),
)

handler-Returns :
    (s : Server) (call : Call) (p : Option Principal) (req : Option ListUsersRequest) (w : World)
    → Returns (list_users_handler s call p req) w (λ resp _. Paged resp)
unfolding list_users_handler
handler-Returns s call p req w = Returns-bind (
    Returns-always _ λ r. Returns-bind (
      Returns-always _ λ actor. Returns-bind (
        Returns-mono (paging-Returns r _) λ pages _ bounds. Returns-bind (
          Returns-always _ λ dob. Returns-bind (
            Returns-always _ λ wanted. Returns-bind (
              Returns-map_err _ _ (
                Returns-mono (list_users-Returns _ _ _ _) λ result _ page.
                  Returns-ask _ (paged _ _ result pages.0 pages.1 page bounds))))))))

-- A listing of users that returns has a page number of at least 1, a page size of 1 to 100, and no
-- more users than the page size or than the total that it counts.
pub list_users_is_Paged :
    (s : Server) (call : Call) (p : Option Principal) (req : Option ListUsersRequest) (w : World)
    (resp : Response) (w' : World)
    → list_users_handler s call p req w ≡ (ok resp, w')
    → Paged resp
list_users_is_Paged s call p req w resp w' = Returns-ok resp w' (handler-Returns s call p req w)

-- ===== src/AuthHttp/Policies.antt =====
-- What the policy lets through, and what the readings of an answer mean.
use qiniu_exporter.AuthHttp.{
  Endpoint, Policy, Request, endpoint, equal_fold, find_endpoint, not_allowed,
}
use qiniu_exporter.Base.{
  Bool-cases, List, String, [], arith, eq_iff, get_elem?, inl, inr, not, refl, some, str_eq, suc,
  true, ℕ, ◌&&◌, ◌∷◌, ◌≡◌, ◌⊎◌,
}
use qiniu_exporter.Base.Result.{>>=-eq-ok, ok, refuse_if}

-- The endpoint of the policy that a request names.
pub record IsAllowed (p : Policy) (req : Request) (name : String) : Type 0 where
  pub position : ℕ
  pub found : Endpoint
  pub listed : get_elem? p.endpoints position ≡ some found
  pub same_method : req.method ≡ found.method
  pub same_path : req.path ≡ found.path
  pub named : found.name ≡ name

find_endpoint-found :
    (req : Request) (es : List Endpoint) {name : String}
    → find_endpoint req es ≡ ok name
    → (i : ℕ) × (e : Endpoint) × (get_elem? es i ≡ some e)
      × (req.method ≡ e.method)
      × (req.path ≡ e.path)
      × (e.name ≡ name)
unfolding find_endpoint
find_endpoint-found req [] h = cc
find_endpoint-found req (e ∷ es) h =
    elim (Bool-cases (str_eq req.method e.method && str_eq req.path e.path)) [
      | inl q ↦ (
        0,
        e,
        refl,
        ground (arith, eq_iff req.method e.method),
        ground (arith, eq_iff req.path e.path),
        ground arith,
      )
      | inr q ↦
          let (i, f, at_i, m, p, n) = find_endpoint-found req es (ground arith) in
          (suc i, f, at_i, m, p, n)
    ]

-- A request that the policy accepts goes over https to the host of the policy, also by its Host
-- header, up to the case of the letters, and its method and path are exactly those of an endpoint
-- in the list; it is observed under that endpoint's name.
pub endpoint-IsAllowed :
    (p : Policy) (req : Request) {name : String}
    → endpoint p req ≡ ok name
    → (equal_fold req.scheme "https" ≡ true)
      × (equal_fold req.url_host p.host ≡ true)
      × ((req.host_header ≡ "") ⊎ (equal_fold req.host_header p.host ≡ true))
      × IsAllowed p req name
unfolding endpoint
endpoint-IsAllowed p req h =
    let (u1, e1, h1) =
      >>=-eq-ok (refuse_if (not (equal_fold req.scheme "https")) not_allowed) _ h in
    let (u2, e2, h2) =
      >>=-eq-ok (refuse_if (not (equal_fold req.url_host p.host)) not_allowed) _ h1 in
    let (u3, e3, h3) =
      >>=-eq-ok
        (refuse_if (not (str_eq req.host_header "") && not (equal_fold req.host_header p.host))
          not_allowed)
        _ h2 in
    let (i, e, at_i, m, q, n) = find_endpoint-found req p.endpoints h3 in
    (
      ground arith,
      ground arith,
      ground (arith, eq_iff req.host_header ""),
      record { position = i; found = e; listed = at_i; same_method = m; same_path = q; named = n },
    )

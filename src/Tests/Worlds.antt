-- ===== src/Tests/Worlds.antt =====
-- A world with a cache that forgets nothing and a store that keeps its users in memory.
use spi_exata.Base.{
  inl, inr, String, ◌≡◌, ◌≢◌, refl, Bool, ◌&&◌, ◌==◌, ◌is◌, if◌then◌else◌, Option, none, some,
  arith, eq_iff,
}
use spi_exata.Base.Errors.{user_not_found, sentinel, Result, ok, err}
use spi_exata.Base.Int.{pos}
use spi_exata.User.{Uuid, Address, User}
use spi_exata.User.Core.{Storer}
use spi_exata.User.Cache.{Client}
use spi_exata.User.Cache.Coherence.{Views, IsClient, IsStorer}

pub record World : Type 0 where
  pub cached : String → Option User
  pub rows : Uuid → Option User
  pub emails : String → Option Uuid

abbrev pub views : Views World
views = record { peek = World.cached; row = World.rows; kept = λ u. u }

abbrev set_at {ℓ} : {A : Type ℓ} → String → A → (String → A) → String → A
set_at k x f j = if j is k then x else f j

abbrev pub memory : Client World
memory = record {
  get = λ k w. (w.cached k, w);
  set = λ k u w. record w { cached = set_at k (some u) w.cached };
  delete = λ k w. record w { cached = set_at k none w.cached };
}

pub memory-IsClient : IsClient views memory
memory-IsClient = record {
  get_hit = λ k w u e. e;
  get_keeps = λ k w j u e. e;
  get_row = λ k w i. refl;
  set_peek = λ k u w j x e. ground (arith, eq_iff j k);
  set_row = λ k u w i. refl;
  delete_peek = λ k w j x e. ground (arith, eq_iff j k);
  delete_row = λ k w i. refl;
}

abbrev put : Uuid → Option User → World → World
put i u w = record w { rows = λ j. if j == i then u else w.rows j }

abbrev index_email : User → World → World
index_email u w = record w { emails = set_at u.email.address (some u.id) w.emails }

abbrev found : (User → Bool) → Option User → Result User
found fits none = err (sentinel user_not_found)
found fits (some u) = if fits u then ok u else err (sentinel user_not_found)

abbrev updated : User → Option User → World → World
updated u none w = w
updated u (some old) w =
    put u.id (some (record u { created_at = old.created_at })) (index_email u w)

abbrev find_at : Address → Option Uuid → World → Result User
find_at a none w = err (sentinel user_not_found)
find_at a (some i) w = found (λ u. u.id == i && u.email.address is a.address) (w.rows i)

abbrev pub store : Storer World
store = record {
  create = λ u w. (ok tt, put u.id (some u) (index_email u w));
  update = λ u w. (ok tt, updated u (w.rows u.id) w);
  delete = λ u w. (ok tt, put u.id none w);
  query = λ filter order_by page w. (err (sentinel user_not_found), w);
  count = λ filter w. (ok (pos 0), w);
  query_by_id = λ i w. (found (λ u. u.id == i) (w.rows i), w);
  query_by_email = λ a w. (find_at a (w.emails a.address) w, w);
}

updated-peek :
    (u : User) (o : Option User) (w : World) (j : String) → (updated u o w).cached j ≡ w.cached j
updated-peek u none w j = refl
updated-peek u (some old) w j = refl

updated-row :
    (u old : User) (o : Option User) (w : World)
    → o ≡ some old
    → old.created_at ≡ u.created_at
    → (updated u o w).rows u.id ≡ some u
updated-row u old none w h e = cc
updated-row u old (some x) w h e = ground arith

updated-other :
    (u : User) (o : Option User) (w : World) (i : Uuid)
    → i ≢ u.id
    → (updated u o w).rows i ≡ w.rows i
updated-other u none w i h = refl
updated-other u (some old) w i h = ground arith

find_at-found :
    (a : Address) (o : Option Uuid) (w : World) (u : User)
    → find_at a o w ≡ ok u
    → (w.rows u.id ≡ some u) × (u.email.address ≡ a.address) × (u ≡ u)
find_at-found a none w u h = cc
find_at-found a (some i) w u h = ground (arith, eq_iff u.email.address a.address)

pub store-IsStorer : IsStorer views store
store-IsStorer = record {
  create_peek = λ u w j. refl;
  update_peek = λ u w j. updated-peek u (w.rows u.id) w j;
  delete_peek = λ u w j. refl;
  by_id_peek = λ i w j. refl;
  by_email_peek = λ a w j. refl;
  by_id_row = λ i w j. refl;
  by_email_row = λ a w j. refl;
  create_row = λ u w h. ground arith;
  update_row = λ u old w h there e. updated-row u old (w.rows u.id) w there e;
  create_other = λ u w i h. elim h [ inl n ↦ absurd (n refl) | inr n ↦ ground arith ];
  update_other =
      λ u w i h. elim h [ inl n ↦ absurd (n refl) | inr n ↦ updated-other u (w.rows u.id) w i n ];
  delete_other = λ u w i h. elim h [ inl n ↦ absurd (n refl) | inr n ↦ ground arith ];
  by_id_found = λ i w u h. ground arith;
  by_email_found = λ a w u h. find_at-found a (w.emails a.address) w u h;
}

abbrev pub empty_world : World
empty_world = record { cached = λ k. none; rows = λ i. none; emails = λ a. none }

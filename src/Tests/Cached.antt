-- ===== src/Tests/Cached.antt =====
-- The cached store over the world in memory.
use spi_exata.Base.{
  ℕ, zero, suc, String, ◌≡◌, ◌≢◌, refl, eq_refl, sym, ap, ◌∙◌, Bool, true, false, ◌==◌, some,
  length, any, arith, eq_iff,
}
use spi_exata.Base.Strings.{codes}
use spi_exata.Base.Errors.{ok}
use spi_exata.User.{Uuid, User}
use spi_exata.User.Cache.{create, update, query_by_id, query_by_email, new_with_tx}
use spi_exata.User.Core.{Storer}
use spi_exata.Sdk.Tran.{CommitRollbacker, sqlx_tx}
use spi_exata.User.Cache.Rollback.{rolled_back-stale}
use spi_exata.User.Cache.Coherence.{IsCoherent, IsApart}
use spi_exata.User.Cache.Reads.{
  created, updated, Run, here, next, Run-Coherent, query_by_id-row, IsExact, query_by_email-stale,
}
use spi_exata.Tests.Values.{bill_user, moved_user}
use spi_exata.Tests.Worlds.{
  World, views, memory, memory-IsClient, store, store-IsStorer, empty_world,
}

-- An id as a row of as many characters.
abbrev show : Uuid → String
show zero = ""
show (suc i) = String.◌∷◌ "x" (show i)

length-show : (i : Uuid) → length (codes (show i)) ≡ i
length-show zero = refl
length-show (suc i) = ap suc (length-show i)

show_inj : (i j : Uuid) → show i ≡ show j → i ≡ j
show_inj i j e = sym (length-show i) ∙ ap (λ s. length (codes s)) e ∙ length-show j

abbrev has_at : String → Bool
has_at s = any (λ c. c == b'@') (codes s)

has_at-show : (i : Uuid) → has_at (show i) ≡ false
has_at-show zero = refl
has_at-show (suc i) = has_at-show i

at-apart : (s : String) → has_at s ≡ true → (i : Uuid) → s ≢ show i
at-apart s h i e = let f = ap has_at e ∙ has_at-show i in cc

bill-IsApart : IsApart show bill_user
bill-IsApart = at-apart bill_user.email.address refl

moved-IsApart : IsApart show moved_user
moved-IsApart = at-apart moved_user.email.address refl

abbrev world_1 : World
world_1 = (create memory show store bill_user empty_world).1

abbrev world_2 : World
world_2 = (update memory show store moved_user world_1).1

bill_alone : (i : Uuid) (u : User) → world_1.rows i ≡ some u → u ≡ bill_user
unfolding create
bill_alone i u h = ground arith

rows_apart : (i : Uuid) (u : User) → world_1.rows i ≡ some u → (j : Uuid) → u.email.address ≢ show j
rows_apart i u h j e = bill-IsApart j (sym (ap (λ u. u.email.address) (bill_alone i u h)) ∙ e)

steps_to_1 : Run views memory show store memory-IsClient store-IsStorer show_inj empty_world world_1
steps_to_1 = next here (created bill_user bill-IsApart refl)

coherence_at_1 : IsCoherent views show world_1
coherence_at_1 =
    Run-Coherent views memory show store memory-IsClient store-IsStorer show_inj steps_to_1
      (λ i u e. cc)

row_1 : world_1.rows 7 ≡ some bill_user
unfolding create
row_1 = refl

-- Bill is created, read by id, and then changes his address.
Run-Coherent_example : IsCoherent views show world_2
Run-Coherent_example =
    Run-Coherent views memory show store memory-IsClient store-IsStorer show_inj
      (next steps_to_1 (updated moved_user bill_user moved-IsApart row_1 refl refl)) (λ i u e. cc)

read_1 : (query_by_id memory show store 7 world_1).0 ≡ ok bill_user
unfolding query_by_id create
read_1 = refl

query_by_id-row_example : world_1.rows 7 ≡ some bill_user
query_by_id-row_example =
    query_by_id-row views memory show store memory-IsClient store-IsStorer show_inj 7 world_1
      bill_user coherence_at_1 read_1

memory-IsExact : IsExact views memory show store memory-IsClient store-IsStorer show_inj
memory-IsExact = record {
  get_exact = λ k w. refl;
  set_keeps = λ k u w j h. ground (arith, eq_iff j k);
}

cached_1 : world_1.cached "bill@example.com" ≡ some bill_user
unfolding create
cached_1 = refl

updated_1 : (update memory show store moved_user world_1).0 ≡ ok tt
unfolding update
updated_1 = refl

query_by_email-stale_example :
    (query_by_email memory show store bill_user.email
      (update memory show store moved_user world_1).1).0
    ≡ ok bill_user
query_by_email-stale_example =
    query_by_email-stale views memory show store memory-IsClient store-IsStorer show_inj moved_user
      bill_user world_1 memory-IsExact cached_1 updated_1
      (ground (arith, eq_iff "bill@example.com" "will@example.com")) (bill-IsApart 7)

-- the users as they were, beside the cache as it is
abbrev undo : World → World
undo w = record w { rows = world_1.rows; emails = world_1.emails }

abbrev some_tx : CommitRollbacker ℕ
some_tx = sqlx_tx 0

updated_behind : (store.update moved_user world_1).0 ≡ ok tt
updated_behind = refl

rolled_back-stale_example :
    (cached : Storer World) × (new_with_tx memory show (λ tx. ok store) some_tx ≡ ok cached)
    × ((query_by_id memory show store 7 (undo (cached.update moved_user world_1).1)).0
        ≡ ok moved_user)
    × (views.row (undo (cached.update moved_user world_1).1) 7 ≡ views.row world_1 7)
rolled_back-stale_example =
    rolled_back-stale views memory show store memory-IsClient store-IsStorer show_inj
      (λ tx. ok store) some_tx store refl memory-IsExact (λ k x w. rw (eq_refl k) refl) undo
      moved_user world_1 (λ w1 k. refl) (λ w1 i. refl) updated_behind (moved-IsApart 7)

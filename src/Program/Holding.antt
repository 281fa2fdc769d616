-- ===== src/Program/Holding.antt =====
-- Counting what a world holds: calls that change nothing, that take a resource and give it back, and
-- how these follow each other.
use spi_exata.Base.{List, ◌∙◌, ℕ, ◌+◌, ◌-◌, String, ◌≡◌, ◌≢◌, refl, ◌⊎◌, inl, inr, arith}
use spi_exata.Base.Errors.{Error, Result, ok, err, panicked}
use spi_exata.Base.Errors as Errors
use spi_exata.Base.State.{deferring, deferring_call, M, continue}
use spi_exata.User.{Time}
use spi_exata.Logger.{Arg}
use spi_exata.Sdk.Opening as Sqldb
use spi_exata.Tracing.Sampling as Tracing
use spi_exata.Program.{Version, Config, server_error, signal, Server, Calls}

pub data Resource : Type 0 where
  database provider server : Resource

abbrev pub one_of : Resource → Resource → ℕ
one_of database database = 1
one_of provider provider = 1
one_of server server = 1
one_of _ _ = 0

pub one_of-server : (x : Resource) → (one_of server x ≡ 0) ⊎ (x ≡ server)
one_of-server database = inl refl
one_of-server provider = inl refl
one_of-server server = inr refl

-- How many of each resource a world holds.
abbrev pub Held : Type 0 → Type 0
Held W = W → Resource → ℕ

abbrev pub IsPanic : {X : Type 0} → Result X → Type 0
IsPanic r = (m : String) × (r ≡ panicked m)

module _ {W : Type 0} (held : Held W) where
  -- The world holds so many of a resource; or this is the server, after a panic.
  abbrev pub Ends : {X : Type 0} → Resource → ℕ → Result X → W → Type 0
  Ends x n r w' = (held w' x ≡ n) ⊎ ((x ≡ server) × IsPanic r)

  -- The world holds as much as before of a resource; or this is the server, after a panic.
  abbrev pub IsKept : {X : Type 0} → Resource → Result X → W → W → Type 0
  IsKept x r w w' = Ends x (held w x) r w'

  abbrev pub Keeps : {X : Type 0} → M W X → Type 0
  Keeps m = (w : W) (x : Resource) → IsKept x (m w).0 w (m w).1

  -- However the call ends, it changes nothing that is held.
  abbrev pub IsSteady : {X : Type 0} → M W X → Type 0
  IsSteady m = (w : W) (x : Resource) → held (m w).1 x ≡ held w x

  -- A call that takes one of a resource if it gives a value, and else nothing; `free` gives it back.
  abbrev pub Takes : {X : Type 0} → Resource → (X → W → W) → M W X → Type 0
  Takes {X} taken free m =
      ((w : W) (a : X) (x : Resource) → (m w).0 ≡ ok a → held (m w).1 x ≡ held w x + one_of taken x)
      × ((w : W) (e : Error) (x : Resource) → (m w).0 ≡ err e → held (m w).1 x ≡ held w x)
      × ((w : W) (p : String) (x : Resource) → (m w).0 ≡ panicked p → held (m w).1 x ≡ held w x)
      × ((v : W) (a : X) (w : W) (x : Resource)
          → (m v).0 ≡ ok a
          → held (free a w) x ≡ held w x - one_of taken x)

  module _ {X Y : Type 0} where
    pub steady_lem :
        (r : Result X) (w w' : W) (f : X → M W Y) (x : Resource)
        → held w' x ≡ held w x
        → ((a : X) → Keeps (f a))
        → IsKept x (continue r w' f).0 w (continue r w' f).1
    steady_lem (ok a) w w' f x h k = elim (k a w' x) [ inl e ↦ inl (e ∙ h) | inr p ↦ inr p ]
    steady_lem (err e) w w' f x h k = inl h
    steady_lem (panicked m) w w' f x h k = inl h

    -- A steady step changes nothing for what follows it.
    pub after :
        (m : M W X) (f : X → M W Y)
        → IsSteady m
        → ((a : X) → Keeps (f a))
        → Keeps (λ w. continue (m w).0 (m w).1 f)
    after m f h k w x = steady_lem (m w).0 w (m w).1 f x (h w x) k

    freed_at :
        (taken : Resource) (prefix : String) (free : X → W → W) (body : X → M W Y) (m : M W X)
        → Takes taken free m
        → ((a : X) → Keeps (body a))
        → (w : W) (x : Resource) (r : Result X) → (m w).0 ≡ r
        → IsKept x
            (continue (Errors.wrapping prefix r) (m w).1 (λ a. deferring (free a) (body a))).0
            w
            (continue (Errors.wrapping prefix r) (m w).1 (λ a. deferring (free a) (body a))).1
    freed_at taken prefix free body m (took, failed, fell, gives) k w x (ok a) e =
        let w1 = (m w).1 in
        let one = took w a x e in
        let back = gives w a (body a w1).1 x e in
        elim (k a w1 x) [ inl same ↦ inl (omega arith) | inr p ↦ inr p ]
    freed_at taken prefix free body m (took, failed, fell, gives) k w x (err y) e =
        inl (failed w y x e)
    freed_at taken prefix free body m (took, failed, fell, gives) k w x (panicked p) e =
        inl (fell w p x e)

    -- What is taken and given back by a deferred call is held only in between.
    pub freed :
        (taken : Resource) (prefix : String) (free : X → W → W) (body : X → M W Y) (m : M W X)
        → Takes taken free m
        → ((a : X) → Keeps (body a))
        → Keeps (λ w.
          continue (Errors.wrapping prefix (m w).0) (m w).1 (λ a. deferring (free a) (body a)))
    freed taken prefix free body m t k w x = freed_at taken prefix free body m t k w x (m w).0 refl

  module _ {Y : Type 0} where
    deferred_at :
        (r : Result Y) (d : Result (Unit {0})) (x : Resource) (n : ℕ) (w1 w2 : W)
        → Ends x n r w1
        → held w2 x ≡ held w1 x
        → Ends x n (elim d [ ok _ ↦ r | err _ ↦ r | panicked p ↦ panicked p ]) w2
    deferred_at r d x n w1 w2 (inl e) h = inl (h ∙ e)
    deferred_at r (ok u) x n w1 w2 (inr p) h = inr p
    deferred_at r (err y) x n w1 w2 (inr p) h = inr p
    deferred_at r (panicked y) x n w1 w2 (inr (is, p)) h = inr (is, (y, refl))

    -- A deferred call that is steady changes nothing, but may panic.
    pub deferred :
        (f : M W (Unit {0})) (m : M W Y)
        → IsSteady f
        → (w : W) (x : Resource) (n : ℕ) → Ends x n (m w).0 (m w).1
        → Ends x n (deferring_call f m w).0 (deferring_call f m w).1
    deferred f m h w x n k =
        deferred_at (m w).0 (f (m w).1).0 x n (m w).1 (f (m w).1).1 k (h (m w).1 x)

-- What is asked of the calls: which of them take a resource or give it back, and that the others leave
-- the resources as they are, however they end.
pub record IsHolder {W F D KS T A : Type 0} (c : Calls W F D KS T A) (held : Held W) : Type 0 where
  pub info : (msg : String) (args : List Arg) → IsSteady held (c.info msg args)
  pub info_returns :
      (msg : String) (args : List Arg) (w : W) (e : Error) → (c.info msg args w).0 ≢ err e
  pub build_info : IsSteady held c.build_info
  pub publish : (s : String) → IsSteady held (c.publish s)
  pub notify : IsSteady held c.notify
  pub process : (v : Version) → IsSteady held (c.process v)
  pub open_db : (cfg : Sqldb.Config) → Takes held database c.close_db (c.open_db cfg)
  pub load_keys : (dir : String) → IsSteady held (c.load_keys dir)
  pub init_tracing : (cfg : Tracing.Config F) → Takes held provider (λ x. x.1) (c.init_tracing cfg)
  pub web_api :
      (cfg : Config F) (db : D) (ks : KS) (tp : T) → IsSteady held (c.web_api cfg db ks tp)
  pub listen :
      (api : Server A) (w : W) (x : Resource) → held (c.listen api w) x ≡ held w x + one_of server x
  -- The server has ended where there is an error of it.
  pub wait_error :
      (w : W) (e : Error) (x : Resource)
      → (c.wait w).0 ≡ server_error e
      → held (c.wait w).1 x ≡ held w x - one_of server x
  pub wait_signal :
      (w : W) (sig : ℕ) (x : Resource) → (c.wait w).0 ≡ signal sig → held (c.wait w).1 x ≡ held w x
  pub shutdown_done :
      (t : Time) (w : W) (x : Resource)
      → (c.shutdown t w).0 ≡ ok tt
      → held (c.shutdown t w).1 x ≡ held w x - one_of server x
  pub shutdown_failed :
      (t : Time) (w : W) (e : Error) (x : Resource)
      → (c.shutdown t w).0 ≡ err e
      → held (c.shutdown t w).1 x ≡ held w x
  pub shutdown_fell :
      (t : Time) (w : W) (p : String) (x : Resource)
      → (c.shutdown t w).0 ≡ panicked p
      → held (c.shutdown t w).1 x ≡ held w x
  pub close_server : (w : W) (x : Resource) → held (c.close_server w) x ≡ held w x - one_of server x

-- ===== src/Concurrent/System.antt =====
-- Any number of goroutines on one manager, interleaved in any order with the background writes and
-- with what others do to the world outside.
use cache_server_go.Base.{
  ℕ, ◌≡◌, ◌⊎◌, none, List, [], ◌∷◌, ◌++◌, Bytes, ite, ℕ_discrete, InList, false,
}
use cache_server_go.L1.Cache.{new_l1}
use cache_server_go.L2.{Outside, found}
use cache_server_go.Manager.Store.{Settings}
use cache_server_go.Concurrent.Group.{Group}
use cache_server_go.Concurrent.Moves.{Shared, Pc, Move, idle}

module _ (o : Outside) where
  open o use {World, redis_get, redis_set, redis_del, fetch}

  -- What the code relies on of the world outside: `Holds w k v` says that Redis may answer a `GET` of
  -- `k` with `v`; it does so only for what was set there. `Drift` is what happens by itself: time
  -- passes, keys expire, other services come and go; nothing is set in Redis.
  pub record Redis : Type 1 where
    pub Holds : World → Bytes → Bytes → Type 0
    pub Drift : World → World → Type 0
    pub get_held : (k v : Bytes) (w : World) → (redis_get k w).0 ≡ found v → Holds w k v
    pub held_of_get : (key k v : Bytes) (w : World) → Holds (redis_get key w).1 k v → Holds w k v
    pub held_of_del : (key k v : Bytes) (w : World) → Holds (redis_del key w).1 k v → Holds w k v
    pub held_of_fetch : (key k v : Bytes) (w : World) → Holds (fetch key w).1 k v → Holds w k v
    pub held_of_drift : (k v : Bytes) (w w' : World) → Drift w w' → Holds w' k v → Holds w k v
    pub held_of_set :
        (key value k v : Bytes) (ttl : ℕ) (w : World)
        → Holds (redis_set key value ttl w).1 k v
        → Holds w k v ⊎ ((k ≡ key) × (v ≡ value))

abbrev pub update {ℓ} : {A : Type ℓ} → (ℕ → A) → ℕ → A → ℕ → A
update f i a j = ite (ℕ_discrete i j) a (f j)

module _ (o : Outside) (g : Group) (settings : Settings) (d : Redis o) where
  open o use {redis_set}
  open g use {Ticket, result, is_open}
  open d use {Drift, Holds}

  pub record System : Type 0 where
    pub shared : Shared o g settings
    pub pc : ℕ → Pc o g settings

  pub data Step (s : System) : System → Type 0 where
    pick :
        (i : ℕ) {m : Shared o g settings} {p : Pc o g settings}
        → Move o g settings s.shared (s.pc i) m p
        → Step s (record { shared = m; pc = update s.pc i p })
    write_back :
        (before after : List (Bytes × Bytes)) (key v : Bytes)
        → s.shared.writes ≡ before ++ ((key, v) ∷ after)
        → Step s (record s {
          shared = record (s.shared) {
            writes = before ++ after;
            world = (redis_set key v settings.l2_ttl s.shared.world).1;
          };
        })
    drift :
        (w : o.World)
        → Drift s.shared.world w
        → Step s (record s { shared = record (s.shared) { world = w } })

  -- The states that some steps lead to.
  pub data Runs (s : System) : System → Type 0 where
    here : Runs s s
    later : {t u : System} → Runs s t → Step t u → Runs s u

  -- A manager before its first request: L1 is new, no goroutine runs, the group has no result, and
  -- the origins are what Redis holds.
  pub record Starts (max_size ttl : ℕ) (s : System) : Type 0 where
    pub new : s.shared.l1 ≡ new_l1 max_size ttl
    pub no_writes : s.shared.writes ≡ []
    pub no_results : (n : Ticket) → result n s.shared.table ≡ none
    pub none_open : (n : Ticket) → is_open n s.shared.table ≡ false
    pub held : (k v : Bytes) → Holds s.shared.world k v → InList (k, v) s.shared.origins
    pub only_held : (k v : Bytes) → InList (k, v) s.shared.origins → Holds s.shared.world k v
    pub idles : (i : ℕ) → s.pc i ≡ idle

-- ===== src/Tests/Concurrent.antt =====
-- Requests that run at the same time: runs of two goroutines, where one waits for the other's fetch.
use cache_server_go.Base.{
  ℕ, ◌≤◌, ◌≡◌, ◌⊎◌, inl, inr, refl, ap, sym, ◌∙◌, false, Option, none, some, [], Bytes, ℕ_discrete,
  dec_bytes, ite, if_pos, if_neg, InList,
}
use cache_server_go.Base.Maps.{Map, lookup, insert, delete, lookup-insert, lookup-delete}
use cache_server_go.Metrics.{
  fresh, record_latency, add_coalesced, add_origin_call, add_l2_miss, add_l1_miss,
}
use cache_server_go.L2.{found, l2_get}
use cache_server_go.L1.Race.{finish_get}
use cache_server_go.L1.Shard.{new_shard, read}
use cache_server_go.L1.Cache.{new_l1, per_shard, shard_of, shard_index, fnv1a}
use cache_server_go.Concurrent.Moves.{
  Shared, Pc, Move, after_look, look_value, after_redis, end_of_look, call_redis, after_join,
  after_fetch, take_fetched, call_origin, store_l1, finish_call, idle, getting, missed, answered,
  waiting, go_direct, return, start_get, look, end_look, ask_redis, go_join, ask_origin, store,
  end_call, wake, end_get,
}
use cache_server_go.Concurrent.System.{Redis, System, pick, Runs, here, later, Starts}
use cache_server_go.Concurrent.Origins.{answers-Known}
use cache_server_go.Concurrent.OneFetch.{one_fetch}
use cache_server_go.Concurrent.Bounded.{moves_of}
use cache_server_go.Concurrent.Work.{IsDone}
use cache_server_go.Concurrent.Finish.{request-IsDone}
use cache_server_go.Concurrent.Rest.{view}
use cache_server_go.Concurrent.Alone.{CanMove, get-alone}
use cache_server_go.Manager.Store as Store
use cache_server_go.Manager.Store.{Settings}
use cache_server_go.Tests.Manager.{k1, v1, world, settings, reply}
use cache_server_go.Tests.Group.{group, group_laws}

reply_found : (r : Option Bytes) (v : Bytes) → reply r ≡ found v → r ≡ some v
reply_found none v e = absurd (cc)
reply_found (some w) v e = cc

held_of_delete :
    (key k v : Bytes) (w : Map Bytes) → lookup k (delete key w) ≡ some v → lookup k w ≡ some v
held_of_delete key k v w h = elim (dec_bytes key k) [
  | yes e ↦ absurd (cc (h, lookup-delete key k w ∙ if_pos (dec_bytes key k) e _ _))
  | no n ↦ sym (lookup-delete key k w ∙ if_neg (dec_bytes key k) n _ _) ∙ h
]

held_of_insert :
    (key value k v : Bytes) (w : Map Bytes)
    → lookup k (insert key value w) ≡ some v
    → (lookup k w ≡ some v) ⊎ ((k ≡ key) × (v ≡ value))
held_of_insert key value k v w h = elim (dec_bytes key k) [
  | yes e ↦ inr (sym e, cc (h, lookup-insert key k value w ∙ if_pos (dec_bytes key k) e _ _))
  | no n ↦ inl (sym (lookup-insert key k value w ∙ if_neg (dec_bytes key k) n _ _) ∙ h)
]

abbrev redis : Redis world
redis = record {
  Holds = λ w k v. lookup k w ≡ some v;
  Drift = λ w w'. w' ≡ w;
  get_held = λ k v w h. reply_found (lookup k w) v h;
  held_of_get = λ key k v w h. h;
  held_of_del = held_of_delete;
  held_of_fetch = λ key k v w h. h;
  held_of_drift = λ k v w w' e h. ap (lookup k) (sym e) ∙ h;
  held_of_set = λ key value k v ttl w h. held_of_insert key value k v w h;
}

abbrev start : System world group settings redis
start = record {
  shared = record {
    l1 = new_l1 1000 5;
    metrics = fresh;
    writes = [];
    table = record { open_call = λ k. none; ended = λ k n. none; waited = λ k n. false; count = 0 };
    world = [];
    origins = [];
  };
  pc = λ i. idle;
}

starts : Starts world group settings redis 1000 5 start
unfolding lookup
starts = record {
  new = refl;
  no_writes = refl;
  no_results = λ n. refl;
  none_open = λ n. refl;
  held = λ k v h. absurd (empty k v h);
  only_held = λ k v h. absurd (nothing k v h);
  idles = λ i. refl;
}
  where
    empty : (k v : Bytes) → lookup k [] ≡ some v → ⊥
    empty k v h = cc

    nothing : (k v : Bytes) → InList {A = Bytes × Bytes} (k, v) [] → ⊥
    nothing k v (i, e) = cc

program : Unit {0}
unfolding after_look look_value finish_get after_redis l2_get end_of_look call_redis after_join
    after_fetch take_fetched call_origin store_l1 finish_call ℕ_discrete dec_bytes lookup insert
    delete new_l1 per_shard shard_of shard_index fnv1a new_shard read
program = tt

-- The states that runs lead to, with the runs.
abbrev RunOf : {c : Settings} → System world group c redis → Type 0
RunOf {c} s = (t : System world group c redis) × Runs world group c redis s t

abbrev Run : Type 0
Run = RunOf start

-- The runs with one more move, of goroutine `i`.
infixl 40 ◌then◌does◌
abbrev ◌then◌does◌ :
    {c : Settings} {s : System world group c redis} (x : RunOf s) (i : ℕ) {m : Shared world group c}
    {p : Pc world group c}
    → Move world group c x.0.shared (x.0.pc i) m p
    → RunOf s
(t, r) then i does mv = (_, later r (pick i mv))

-- Goroutine 0 leads the call for the key, and goroutine 1 waits for it.
abbrev both : Run
unfolding program
both =
    (start, here)
    then 0 does start_get k1
    then 0 does look k1 7
    then 0 does end_look k1 7 none
    then 0 does ask_redis k1 7
    then 0 does go_join k1 7 refl
    then 1 does start_get k1
    then 1 does look k1 7
    then 1 does end_look k1 7 none
    then 1 does ask_redis k1 7
    then 1 does go_join k1 7 refl

-- Goroutine 0 fetches and ends the call, and goroutine 1 wakes with its result.
abbrev shared_fetch : Run
unfolding program
shared_fetch =
    both
    then 0 does ask_origin k1 7 (some (k1, 0))
    then 0 does store k1 7 (some (k1, 0)) v1
    then 0 does end_call k1 7 (k1, 0) (some v1)
    then 1 does wake k1 7 (k1, 0) (some v1) refl
    then 1 does end_get k1 7 (some v1)

-- One call of the origin, and two requests of which one counts as coalesced twice: by `Get` of the
-- leader, whose call is shared, and by `Get` of the other.
fetched_once :
    (shared_fetch.0.shared.metrics.origin_calls ≡ 1)
    × (shared_fetch.0.shared.metrics.coalesced_calls ≡ 2)
unfolding program record_latency add_coalesced add_origin_call add_l2_miss add_l1_miss
fetched_once = (refl, refl)

answers-Known_example : InList (k1, v1) shared_fetch.0.shared.origins
unfolding program
answers-Known_example =
    answers-Known world group group_laws settings redis 1000 5 starts shared_fetch.1 1 k1 v1 refl

one_fetch_example : ◌≡◌ {A = ℕ} 0 0
unfolding program
one_fetch_example =
    one_fetch world group group_laws settings redis 1000 5 refl starts both.1 0 0 k1 7 7
      (some (k1, 0)) (some (k1, 0)) refl refl

waits : both.0.pc 1 ≡ waiting k1 7 (k1, 0)
unfolding program
waits = refl

request-IsDone_example :
    ((u : System world group settings redis)
      → (r : Runs world group settings redis both.0 u)
      → moves_of world group settings redis 1 r ≤ 9)
    × ((u : System world group settings redis) × Runs world group settings redis both.0 u
        × IsDone world group settings (u.pc 1))
request-IsDone_example =
    request-IsDone world group group_laws settings redis 1000 5 starts both.1 1
      (λ e. cc (sym waits ∙ e))

abbrev alone : Settings
alone = record { l2_ttl = 300; use_sf = false }

-- Goroutine 2 has begun a `Get`, and goroutine 0 stands in the middle of another.
abbrev begun : System world group alone redis
begun = record {
  shared = record {
    l1 = start.shared.l1;
    metrics = fresh;
    writes = [];
    table = start.shared.table;
    world = [];
    origins = [];
  };
  pc = λ i. ite (ℕ_discrete i 2) (getting k1 7) (missed k1 3);
}

abbrev solo : RunOf begun
unfolding program
solo =
    (begun, here)
    then 2 does look k1 7
    then 2 does end_look k1 7 none
    then 2 does ask_redis k1 7
    then 2 does go_direct k1 7 refl
    then 2 does ask_origin k1 7 none
    then 2 does store k1 7 none v1
    then 2 does return k1 7 (some v1)
    then 2 does end_get k1 7 (some v1)

solo_ends : solo.0.pc 2 ≡ answered k1 (some v1)
unfolding program
solo_ends = refl

get-alone_example :
    let f = Store.get world alone k1 (view world group alone begun.shared) in
    (moves_of world group alone redis 2 solo.1 ≤ 9)
    × (((solo.0.pc 2 ≡ answered k1 f.value) × (view world group alone solo.0.shared ≡ f.state))
        ⊎ CanMove world group alone redis solo.0.shared (solo.0.pc 2))
unfolding program
get-alone_example =
    get-alone world group alone redis 2 k1 solo.1 refl refl
      ((((((((tt, refl), refl), refl), refl), refl), refl), refl), refl)

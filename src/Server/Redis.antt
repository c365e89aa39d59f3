-- ===== src/Server/Redis.antt =====
-- How the start of the server ends, by what answers.
use cache_server_go.Base.{
  ◌≡◌, ◌≢◌, refl, ap, ◌∙◌, ◌⊎◌, inl, inr, Bool, true, false, Bool-cases, Option, some, List, [],
  ◌∷◌, Bytes, codes, ℤ, pos, if◌then◌else◌,
}
use cache_server_go.Config.Env.{Config, Environment, load}
use cache_server_go.Config.Slices.{load-redis_addrs}
use cache_server_go.Server.Start.{
  Client, single, client_of, NewL2, connected, no_ping, Started, serving, exited, nil_panic,
  connect, new_l2, after_retry, must_create_fallback_l2, with_l2, after_first, start,
}

abbrev pub local : Client
local = single (codes "localhost:6379") [] (pos 1)

abbrev pub client : Config → Option Client
client cfg = client_of cfg.redis_addrs cfg.redis_password cfg.redis_pool_size

module _ {W : Type 0} (ping : Client → W → Bool × W) (start_grpc : ℤ → W → Bool × W) where
  -- Why the start ends as it does.
  pub data IsStart (cfg : Config) : Started → Type 0 where
    serves :
        (c : Client) (w : W)
        → (ping c w).0 ≡ true
        → (client cfg ≡ some c) ⊎ (c ≡ local)
        → IsStart cfg (serving c)
    exits : (w : W) → (start_grpc cfg.grpc_port w).0 ≡ false → IsStart cfg exited
    crashes :
        (c : Client) (v w : W)
        → client cfg ≡ some c
        → (ping c v).0 ≡ false
        → (ping local w).0 ≡ false
        → IsStart cfg nil_panic

  connected-IsStart :
      (cfg : Config) (c : Client) (v w : W)
      → (ping c v).0 ≡ true
      → (client cfg ≡ some c) ⊎ (c ≡ local)
      → IsStart cfg (with_l2 ping start_grpc cfg (connected c) w)
  unfolding with_l2
  connected-IsStart cfg c v w h which = elim (Bool-cases (start_grpc cfg.grpc_port w).0) [
    | inl on ↦ rw on (serves c v h which)
    | inr off ↦ rw off (exits w off)
  ]

  nil-IsStart :
      (cfg : Config) (c : Client) (u v w : W)
      → client cfg ≡ some c
      → (ping c u).0 ≡ false
      → (ping local v).0 ≡ false
      → IsStart cfg (with_l2 ping start_grpc cfg no_ping w)
  unfolding with_l2
  nil-IsStart cfg c u v w e h k = elim (Bool-cases (start_grpc cfg.grpc_port w).0) [
    | inl on ↦ rw on (crashes c u v e h k)
    | inr off ↦ rw off (exits w off)
  ]

  connect_on :
      (c : Client) (w : W)
      → (ping c w).0 ≡ true
      → connect ping start_grpc (some c) w ≡ (connected c, (ping c w).1)
  unfolding connect
  connect_on c w h = ap (λ b. (if b then connected c else no_ping, (ping c w).1)) h

  connect_off :
      (c : Client) (w : W)
      → (ping c w).0 ≡ false
      → connect ping start_grpc (some c) w ≡ (no_ping, (ping c w).1)
  unfolding connect
  connect_off c w h = ap (λ b. (if b then connected c else no_ping, (ping c w).1)) h

  -- The first `NewL2`, and that of the fallback.
  first : Config → W → NewL2 × W
  first cfg w = connect ping start_grpc (client cfg) w

  start_lem :
      (cfg : Config) (w : W) (r : NewL2 × W)
      → first cfg w ≡ r
      → start ping start_grpc cfg w ≡ after_first ping start_grpc cfg r.0 r.1
  unfolding start new_l2 first
  start_lem cfg w r e = ap (λ x. after_first ping start_grpc cfg x.0 x.1) e

  fallback_lem :
      (cfg : Config) (w : W) (r : NewL2 × W)
      → first cfg w ≡ r
      → must_create_fallback_l2 ping start_grpc cfg w ≡ after_retry ping start_grpc r.0 r.1
  unfolding must_create_fallback_l2 new_l2 first
  fallback_lem cfg w r e = ap (λ x. after_retry ping start_grpc x.0 x.1) e

  first_on :
      (cfg : Config) (c : Client) (w : W)
      → client cfg ≡ some c
      → (ping c w).0 ≡ true
      → first cfg w ≡ (connected c, (ping c w).1)
  unfolding first
  first_on cfg c w e h = ap (λ x. connect ping start_grpc x w) e ∙ connect_on c w h

  first_off :
      (cfg : Config) (c : Client) (w : W)
      → client cfg ≡ some c
      → (ping c w).0 ≡ false
      → first cfg w ≡ (no_ping, (ping c w).1)
  unfolding first
  first_off cfg c w e h = ap (λ x. connect ping start_grpc x w) e ∙ connect_off c w h

  -- Where the retry fails too, `localhost` decides.
  local_on :
      (w : W)
      → (ping local w).0 ≡ true
      → after_retry ping start_grpc no_ping w ≡ (connected local, (ping local w).1)
  unfolding after_retry new_l2 client_of
  local_on w h = connect_on local w h

  local_off :
      (w : W)
      → (ping local w).0 ≡ false
      → after_retry ping start_grpc no_ping w ≡ (no_ping, (ping local w).1)
  unfolding after_retry new_l2 client_of
  local_off w h = connect_off local w h

  retried : (c : Client) (w : W) → after_retry ping start_grpc (connected c) w ≡ (connected c, w)
  unfolding after_retry
  retried c w = refl

  second :
      (cfg : Config) (w : W) (r : NewL2 × W)
      → must_create_fallback_l2 ping start_grpc cfg w ≡ r
      → after_first ping start_grpc cfg no_ping w ≡ with_l2 ping start_grpc cfg r.0 r.1
  unfolding after_first
  second cfg w r e = ap (λ x. with_l2 ping start_grpc cfg x.0 x.1) e

  fallback-IsStart :
      (cfg : Config) (c : Client) (v w : W)
      → client cfg ≡ some c
      → (ping c v).0 ≡ false
      → IsStart cfg (after_first ping start_grpc cfg no_ping w)
  fallback-IsStart cfg c v w e failed = elim (Bool-cases (ping c w).0) [
    | inl on ↦
        rw (second cfg w _ (fallback_lem cfg w _ (first_on cfg c w e on) ∙ retried c (ping c w).1))
          (connected-IsStart cfg c w (ping c w).1 on (inl e))
    | inr off ↦
        let u = (ping c w).1 in
        elim (Bool-cases (ping local u).0) [
          | inl on ↦
              rw (second cfg w _ (fallback_lem cfg w _ (first_off cfg c w e off) ∙ local_on u on))
                (connected-IsStart cfg local u (ping local u).1 on (inr refl))
          | inr none_left ↦
              rw
                (second cfg w _
                  (fallback_lem cfg w _ (first_off cfg c w e off) ∙ local_off u none_left))
                (nil-IsStart cfg c v u (ping local u).1 e failed none_left)
        ]
  ]

  start-IsStart :
      (cfg : Config) (c : Client) (w : W)
      → client cfg ≡ some c
      → IsStart cfg (start ping start_grpc cfg w)
  unfolding after_first
  start-IsStart cfg c w e = elim (Bool-cases (ping c w).0) [
    | inl on ↦
        rw (start_lem cfg w _ (first_on cfg c w e on))
          (connected-IsStart cfg c w (ping c w).1 on (inl e))
    | inr off ↦
        rw (start_lem cfg w _ (first_off cfg c w e off))
          (fallback-IsStart cfg c w (ping c w).1 e off)
  ]

  alone-IsStart :
      (cfg : Config) (r : Started)
      → IsStart cfg r
      → ((c : Client) (w : W) → (ping c w).0 ≡ false)
      → ((port : ℤ) (w : W) → (start_grpc port w).0 ≡ true)
      → r ≡ nil_panic
  alone-IsStart cfg _ (serves c w on which) off grpc = absurd (cc (on, off c w))
  alone-IsStart cfg _ (exits w fails) off grpc = absurd (cc (fails, grpc cfg.grpc_port w))
  alone-IsStart cfg _ (crashes c v w e h k) off grpc = refl

  client_of-some :
      (addrs : List Bytes) (password : Bytes) (pool_size : ℤ)
      → addrs ≢ []
      → (c : Client) × (client_of addrs password pool_size ≡ some c)
  unfolding client_of
  client_of-some [] password pool_size n = absurd (n refl)
  client_of-some (a ∷ []) password pool_size n = (_, refl)
  client_of-some (a ∷ b ∷ addrs) password pool_size n = (_, refl)

  -- With the configuration that `Load` makes of any environment, `main` never indexes the addresses
  -- out of range. If it comes to serve, it has a client of the configured addresses or of
  -- `localhost:6379` that answered a ping; if it exits, gRPC did not start; and otherwise it panics
  -- on a nil pointer, after a ping of each of the two went unanswered: it never runs without L2.
  pub start-load : (e : Environment) (w : W) → IsStart (load e) (start ping start_grpc (load e) w)
  start-load e w =
      let cfg = load e in
      let (c, made) =
        client_of-some cfg.redis_addrs cfg.redis_password cfg.redis_pool_size
          (load-redis_addrs e).0 in
      start-IsStart cfg c w made

  -- Where no Redis answers and gRPC starts, `main` panics.
  start_alone :
      (e : Environment) (w : W)
      → ((c : Client) (w : W) → (ping c w).0 ≡ false)
      → ((port : ℤ) (w : W) → (start_grpc port w).0 ≡ true)
      → start ping start_grpc (load e) w ≡ nil_panic
  start_alone e w = alone-IsStart (load e) (start ping start_grpc (load e) w) (start-load e w)

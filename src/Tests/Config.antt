-- ===== src/Tests/Config.antt =====
-- Reading the configuration: runs and instances.
use cache_server_go.Base.{
  ◌≡◌, refl, none, [], ◌∷◌, ◌++◌, Bytes, codes, All, arith, ite, dec_bytes, pos, ℕ_discrete,
}
use cache_server_go.Config.Env.{
  Environment, env_slice, env_str, env_int, env_bool, env_duration, if_set, if_any, append_part,
  slice_from, or_fallback, load,
}
use cache_server_go.Config.Utf8.{
  runes_from, decode, rest_of, continued, runes, replacement, to_valid,
}
use cache_server_go.Config.Slices.{env_slice-split, env_slice-join, IsItem, split, drop_empty}

-- An environment with one variable, where no number parses.
abbrev pub env : Environment
env = record {
  getenv = λ key. ite (dec_bytes key (codes "REDIS_ADDRS")) (codes "a:1,b:2") [];
  atoi = λ v. none;
  parse_bool = λ v. none;
  parse_duration = λ v. none;
}

program : Unit {0}
unfolding runes_from decode rest_of continued env_slice env_str env_int env_bool env_duration if_set
    if_any append_part slice_from or_fallback load dec_bytes ℕ_discrete
program = tt

addresses : (load env).redis_addrs ≡ codes "a:1" ∷ codes "b:2" ∷ []
unfolding program
addresses = refl

defaults : (load env).server_port ≡ pos 8080
unfolding program
defaults = refl

commas : slice_from [] [] (runes (codes ",,a,,b,")) ≡ codes "a" ∷ codes "b" ∷ []
unfolding program
commas = refl

-- A byte that begins no encoding, one cut short by a comma, and an encoding of three bytes.
abbrev odd : Bytes
odd = 0x61 ∷ 0xFF ∷ b',' ∷ 0xE2 ∷ 0x82 ∷ b',' ∷ 0xE2 ∷ 0x82 ∷ 0xAC ∷ []

odd_parts :
    slice_from [] [] (runes odd)
    ≡ (0x61 ∷ replacement) ∷ (replacement ++ replacement) ∷ (0xE2 ∷ 0x82 ∷ 0xAC ∷ []) ∷ []
unfolding program
odd_parts = refl

-- A surrogate is not valid, nor is an overlong encoding, nor a number past U+10FFFF.
not_encodings :
    (runes (0xED ∷ 0xA0 ∷ []) ≡ replacement ∷ replacement ∷ [])
    × (runes (0xC0 ∷ 0x80 ∷ []) ≡ replacement ∷ replacement ∷ [])
    × (runes (0xF4 ∷ 0x90 ∷ []) ≡ replacement ∷ replacement ∷ [])
    × (runes (0xF0 ∷ 0x9F ∷ 0x98 ∷ 0x80 ∷ []) ≡ (0xF0 ∷ 0x9F ∷ 0x98 ∷ 0x80 ∷ []) ∷ [])
unfolding program
not_encodings = (refl, refl, refl, refl)

abbrev odd_env : Environment
odd_env = record env { getenv = λ key. odd }

env_slice-split_example :
    env_slice odd_env (codes "REDIS_ADDRS") []
    ≡ if_any (drop_empty (split [] (to_valid (odd_env.getenv (codes "REDIS_ADDRS"))))) []
env_slice-split_example = env_slice-split odd_env (codes "REDIS_ADDRS") []

no_comma : All (λ y. IsItem y) (codes "a:1" ∷ codes "b:2" ∷ [])
no_comma = (
  ((omega arith, (omega arith, (omega arith, tt))), λ e. cc),
  (((omega arith, (omega arith, (omega arith, tt))), λ e. cc), tt),
)

env_slice-join_example : env_slice env (codes "REDIS_ADDRS") [] ≡ codes "a:1" ∷ codes "b:2" ∷ []
unfolding program
env_slice-join_example =
    env_slice-join env (codes "REDIS_ADDRS") [] (codes "a:1") (codes "b:2" ∷ []) no_comma
      (refl, (refl, tt)) refl

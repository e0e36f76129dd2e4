-- ===== src/Tests/Procargs.antt =====
-- The parser of verify_darwin.go at one buffer.
use burnafter.Prelude.{ℕ, ◌≡◌, ◌≢◌, refl, [], ◌∷◌, ◌++◌, inr, arith, replicate, drop}
use burnafter.Bytes.{Bytes, codes}
use burnafter.Result.{ok}
use burnafter.Verify.Darwin.{
  parse_procargs, NoNulls, Ends, parse_procargs_path, parse_procargs_sound,
}

abbrev argc : Bytes
argc = 1 ∷ 0 ∷ 0 ∷ 0 ∷ []

abbrev args : Bytes
args = 0 ∷ codes "app"

abbrev buffer : Bytes
buffer = argc ++ (replicate 2 0 ++ (codes "/bin/app" ++ args))

some_path : codes "/bin/app" ≢ []
some_path = λ e. cc

no_nulls : NoNulls (codes "/bin/app")
no_nulls = ground arith

parse_procargs_path_example : parse_procargs buffer ≡ ok (codes "/bin/app")
parse_procargs_path_example =
    parse_procargs_path argc (codes "/bin/app") args 2 refl some_path no_nulls
      (inr (codes "app", refl))

parse_procargs_sound_example :
    (codes "/bin/app" ≢ [])
    × NoNulls (codes "/bin/app")
    × (k : ℕ) × (rest : Bytes) × (drop 4 buffer ≡ replicate k 0 ++ (codes "/bin/app" ++ rest))
    × Ends rest
parse_procargs_sound_example =
    parse_procargs_sound buffer (codes "/bin/app") parse_procargs_path_example

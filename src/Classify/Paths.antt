-- ===== src/Classify/Paths.antt =====
-- The kinds of paths that the classifiers tell apart, and the tests on texts that they use.
use Prim.Native.Nat.{◌-◌}
use Prim.Native.String.{len, slice, find}
use agentgate.Base.{String, Bool, true, false, ◌||◌, List, [], ◌∷◌, ◌==◌, leb}

-- strings.HasSuffix: the last bytes, as many as the suffix has, are the suffix.
abbrev pub ends_with : String → String → Bool
ends_with s t = slice s (len s - len t) (len s) == t

-- strings.Contains
abbrev pub includes : String → String → Bool
includes s t = leb (find s t) (len s)

-- The flags that the loops over the paths set.
pub data PathKind : Type 0 where
  arch test doc config src : PathKind

abbrev pub is_arch : PathKind → Bool
is_arch arch = true
is_arch _ = false

abbrev pub is_test : PathKind → Bool
is_test test = true
is_test _ = false

abbrev pub is_doc : PathKind → Bool
is_doc doc = true
is_doc _ = false

abbrev pub is_config : PathKind → Bool
is_config config = true
is_config _ = false

abbrev pub is_src : PathKind → Bool
is_src src = true
is_src _ = false

-- Whether the loop sets the flag of a kind.
unfoldable pub has : (PathKind → Bool) → (String → PathKind) → List String → Bool
has flag kind [] = false
has flag kind (p ∷ paths) = flag (kind p) || has flag kind paths

-- Both classifiers take these for configuration.
abbrev pub is_config_path : String → Bool
is_config_path p =
    ends_with p ".yaml"
    || (ends_with p ".yml"
        || (ends_with p ".toml"
            || (ends_with p ".json" || (includes p "Dockerfile" || includes p "Makefile"))))

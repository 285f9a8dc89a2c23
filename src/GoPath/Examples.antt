-- ===== src/GoPath/Examples.antt =====
-- Small paths, as the documentation of `path` and `path/filepath` has them.
use agent_graph.Prelude.{bytes, some, none, ◌≡◌, refl, Str-discrete, ℕ_discrete}
use agent_graph.GoPath.{clean, join, rel, components, resolve, split, join_components, drop_common}

run : Unit {0}
unfolding rel clean join components resolve split join_components drop_common Str-discrete
    ℕ_discrete
run = tt

clean-dots : clean (bytes "a/./b/..//../../c/") ≡ bytes "../c"
unfolding run
clean-dots = refl

clean-rooted : clean (bytes "/../a") ≡ bytes "/a"
unfolding run
clean-rooted = refl

rel-below :
    rel (bytes "/w/x") (join (bytes "/w/x") (bytes "a/./b/..//c.go")) ≡ some (bytes "a/c.go")
unfolding run
rel-below = refl

rel-above : rel (bytes "/a/b/c") (bytes "/a/d") ≡ some (bytes "../../d")
unfolding run
rel-above = refl

rel-relative : rel (bytes "..") (bytes "a") ≡ none
unfolding run
rel-relative = refl

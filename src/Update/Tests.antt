-- ===== src/Update/Tests.antt =====
-- update/checker.go: the order of versions on concrete inputs.
use go_openbmclapi.Prelude.{◌≡◌, refl, true, false}
use go_openbmclapi.Prelude.Int.{pos}
use go_openbmclapi.Update.{ReleaseVersion, less}

abbrev v1 : ReleaseVersion
v1 = record { major = pos 1; minor = pos 9; patch = pos 0; build = pos 0 }

abbrev v2 : ReleaseVersion
v2 = record { major = pos 1; minor = pos 10; patch = pos 0; build = pos 0 }

abbrev v3 : ReleaseVersion
v3 = record { major = pos 1; minor = pos 10; patch = pos 0; build = pos 4 }

minor_decides : less v1 v2 ≡ true
unfolding less
minor_decides = refl

build_decides : less v3 v2 ≡ false
unfolding less
build_decides = refl

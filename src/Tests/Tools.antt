-- ===== src/Tests/Tools.antt =====
-- cmp and echo on small inputs.
use ndk.Base.{◌≡◌, true, some, [], ◌∷◌, codes}
use ndk.Toolbox.{compare_files, echo}
use ndk.Toolbox.Compare.{compare_files-equal}
use ndk.Toolbox.Echo.{echo-join}

compare_files-equal_example : compare_files (codes "abc") (codes "abd") ≡ some true
compare_files-equal_example = compare_files-equal (codes "abc") (codes "abd")

echo-join_example : echo (codes "-n" ∷ codes "a" ∷ codes "-n" ∷ []) ≡ codes "a -n"
echo-join_example = echo-join (codes "-n" ∷ codes "a" ∷ codes "-n" ∷ [])

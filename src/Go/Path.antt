-- ===== src/Go/Path.antt =====
-- `path.Join` of two elements. The program joins absolute directories and file names that hold no
-- `.` or `..` element, where `path.Clean` only drops repeated and trailing slashes.
use kubevirt_dpdk_checkup.Base.{
  ◌≡◌, refl, Bool, true, ◌&&◌, [], ◌∷◌, ◌++◌, Bytes, codes, ◌==◌, if◌then◌else◌,
}

starts_with_slash : Bytes → Bool
starts_with_slash [] = true
starts_with_slash (c ∷ s) = c == b'/'

-- A slash goes if another one, or the end, is behind it.
clean_slashes : Bytes → Bytes
unfolding starts_with_slash
clean_slashes [] = []
clean_slashes (c ∷ s) =
    let rest = clean_slashes s in if c == b'/' && starts_with_slash s then rest else c ∷ rest

unfoldable pub path_join : Bytes → Bytes → Bytes
unfolding clean_slashes
path_join a b = clean_slashes (a ++ (b'/' ∷ b))

path_join_test : path_join (codes "/usr/bin/") (codes "boot.sh") ≡ codes "/usr/bin/boot.sh"
unfolding path_join
path_join_test = refl

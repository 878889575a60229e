-- ===== src/Paths/Tests.antt =====
-- path_depth_cnt at a path.
use jat_os.Prelude.{ℕ, ◌≡◌, List, [], ◌∷◌, done}
use jat_os.Paths.{path_depth_cnt}
use jat_os.Paths.Depth.{names, names_fit, path_depth_cnt-names}

-- "/a//bc/"
abbrev path : List ℕ
path = 47 ∷ 97 ∷ 47 ∷ 47 ∷ 98 ∷ 99 ∷ 47 ∷ []

path_depth_cnt-names_example : path_depth_cnt path ≡ done 2
unfolding names names_fit
path_depth_cnt-names_example = path_depth_cnt-names path

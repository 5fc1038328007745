-- ===== src/Tests/Pathnames.antt =====
-- "//ab/c/", and the root directory.
use enix.Base.{ℕ, ◌<◌, ◌≡◌, ◌⊎◌, refl, true, List, [], ◌∷◌, some, done, if◌then◌else◌, ◌==◌}
use enix.Pathname.{path_parse, depth_loop, path_depth_cnt}
use enix.Pathname.Depth.{names, path_depth_cnt_lem}

abbrev two_names : List ℕ
two_names = 47 ∷ 47 ∷ 97 ∷ 98 ∷ 47 ∷ 99 ∷ 47 ∷ []

path_depth_cnt-two_names : path_depth_cnt 9 two_names ≡ done (some 2)
unfolding path_depth_cnt depth_loop path_parse
path_depth_cnt-two_names = refl

path_depth_cnt_lem_example :
    ((0 < names true two_names) × (path_depth_cnt 9 two_names ≡ done (some (names true two_names))))
    ⊎ ((names true two_names ≡ 0)
        × (path_depth_cnt 9 two_names ≡ done (some (if 9 == 0 then 0 else 1))))
path_depth_cnt_lem_example = path_depth_cnt_lem 9 two_names refl refl

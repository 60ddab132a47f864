-- ===== src/AmiPath/Tests.antt =====
-- Runs of `AmiPath` on concrete paths.
use amitools.Prelude.{◌≡◌, refl, ◌⊎◌, ◌↔◌, true, false, none, some, [], ◌∷◌}
use amitools.AmiPath.{
  AmiPath, ok, ami_path_error, is_syntax_valid, is_parent_local, is_valid, prefix, postfix,
  skip_prefix, build, parent, parent_postfix, names, names_of, dirname, absdirname, join,
  join_parent,
}
use amitools.AmiPath.Prefix.{build-prefix-postfix}
use amitools.AmiPath.Syntax.{IsWellFormed, is_syntax_valid_iff}
use amitools.AmiPath.Join.{join-keeps_prefix}

-- "sys:a/b/", "sys:a/b", "sys:a", "x", "/x", "sys:x" and ":x"
abbrev sys_a_b_slash : AmiPath
sys_a_b_slash = 115 ∷ 121 ∷ 115 ∷ 58 ∷ 97 ∷ 47 ∷ 98 ∷ 47 ∷ []

abbrev sys_a_b : AmiPath
sys_a_b = 115 ∷ 121 ∷ 115 ∷ 58 ∷ 97 ∷ 47 ∷ 98 ∷ []

abbrev sys_a : AmiPath
sys_a = 115 ∷ 121 ∷ 115 ∷ 58 ∷ 97 ∷ []

abbrev x_name : AmiPath
x_name = 120 ∷ []

abbrev slash_x : AmiPath
slash_x = 47 ∷ 120 ∷ []

abbrev sys_x : AmiPath
sys_x = 115 ∷ 121 ∷ 115 ∷ 58 ∷ 120 ∷ []

abbrev colon_x : AmiPath
colon_x = 58 ∷ 120 ∷ []

abbrev sys_a_x : AmiPath
sys_a_x = 115 ∷ 121 ∷ 115 ∷ 58 ∷ 97 ∷ 47 ∷ 120 ∷ []

abbrev two_colons : AmiPath
two_colons = 97 ∷ 58 ∷ 98 ∷ 58 ∷ 99 ∷ []

build-prefix-postfix-run :
    build (prefix sys_a_b_slash) (postfix false false sys_a_b_slash) ≡ sys_a_b_slash
build-prefix-postfix-run = build-prefix-postfix sys_a_b_slash

is_syntax_valid_iff_example : (is_syntax_valid two_colons ≡ true) ↔ IsWellFormed two_colons
is_syntax_valid_iff_example = is_syntax_valid_iff two_colons

join-keeps_prefix_example :
    ((r : AmiPath) × (join sys_a slash_x ≡ ok r) × (prefix r ≡ prefix sys_a))
    ⊎ ((join sys_a slash_x ≡ ami_path_error)
        × (is_parent_local slash_x ≡ true)
        × ((is_parent_local sys_a ≡ true) ⊎ (parent sys_a ≡ none)))
join-keeps_prefix_example = join-keeps_prefix sys_a slash_x refl

join-parent_run : join sys_a_b slash_x ≡ ok sys_a_x
unfolding join parent parent_postfix prefix skip_prefix postfix join_parent
join-parent_run = refl

join-two_parents : join slash_x slash_x ≡ ami_path_error
unfolding join
join-two_parents = refl

-- The comment on `parent` has "foo" here.
parent-colon : parent colon_x ≡ some (58 ∷ [])
unfolding parent parent_postfix prefix skip_prefix postfix
parent-colon = refl

dirname-run : absdirname sys_a_b ≡ some sys_a
unfolding dirname names names_of postfix prefix skip_prefix absdirname
dirname-run = refl

-- An absolute path has no `is_prefix_valid`.
is_valid-absolute : is_valid sys_a ≡ none
unfolding is_valid is_syntax_valid
is_valid-absolute = refl

-- ===== src/Security/Permissions.antt =====
-- The permission check of packages/core/auth.ts; a path is a list of code points.
use Prim.Native.String.{String}
use comission_mgmt.Prelude.{Bool, true, false, ◌&&◌, ◌||◌, Option, none, some, [], ◌∷◌, ◌==◌}
use comission_mgmt.Core.Explanation.Text.{Text, codes}

-- The methods that the permissions name, and any other.
pub data HttpMethod : Type 0 where
  get post patch delete other_method : HttpMethod

-- `Permission`; the method `*` is `none`.
pub record Permission : Type 0 where
  pub method : Option HttpMethod
  pub path_prefix : Text

abbrev pub permit : Option HttpMethod → String → Permission
permit method prefix = record { method = method; path_prefix = codes prefix }

abbrev pub is_same_method : HttpMethod → HttpMethod → Bool
is_same_method get get = true
is_same_method post post = true
is_same_method patch patch = true
is_same_method delete delete = true
is_same_method _ _ = false

-- `path.startsWith(prefix)`.
abbrev pub starts_with : Text → Text → Bool
starts_with [] path = true
starts_with (c ∷ cs) [] = false
starts_with (c ∷ cs) (d ∷ ds) = d == c && starts_with cs ds

-- `pathPrefix === '/'`.
abbrev pub is_root : Text → Bool
is_root (c ∷ []) = c == b'/'
is_root _ = false

abbrev pub method_matches : Option HttpMethod → HttpMethod → Bool
method_matches none method = true
method_matches (some m) method = is_same_method m method

abbrev pub path_matches : Text → Text → Bool
path_matches prefix path = is_root prefix || starts_with prefix path

abbrev pub permits : HttpMethod → Text → Permission → Bool
permits method path p = method_matches p.method method && path_matches p.path_prefix path

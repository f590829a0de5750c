-- ===== src/Auth/Access.antt =====
-- internal/auth/access.go: the policy that tells the callers apart. The roles of a token's claims
-- (claimStrings, a walk through decoded JSON) are read for it: a principal has them as a list.
pub mod Ranks
use katalog_manager.Base.{
  Bool, true, false, not, ◌&&◌, ◌||◌, Option, none, some, List, [], ◌∷◌, any, ◌==◌,
}
use katalog_manager.Base.Text.{Text, is_empty}

-- Access
pub data Access : Type 0 where
  viewer admin worker ingest addon : Access

-- The policy's roles and service clients.
pub record Policy : Type 0 where
  pub admin_role : Text
  pub addon_role : Text
  pub service_clients : List Text

pub record Principal : Type 0 where
  pub unrestricted : Bool
  pub stream : Bool
  pub client : Text
  pub roles : List Text

abbrev pub same_word : Text → Text → Bool
same_word [] [] = true
same_word [] (c ∷ s) = false
same_word (c ∷ s) [] = false
same_word (c ∷ s) (d ∷ t) = c == d && same_word s t

-- hasRole
unfoldable pub has_role : Principal → Text → Bool
has_role p role = not (is_empty role) && any (same_word role) p.roles

-- IsAdmin, IsService and IsAddon, of a caller that is there
unfoldable pub is_admin : Policy → Principal → Bool
unfolding has_role
is_admin pol p = p.unrestricted || has_role p pol.admin_role

unfoldable pub is_service : Policy → Principal → Bool
is_service pol p =
    not p.stream && not (is_empty p.client) && any (same_word p.client) pol.service_clients

unfoldable pub is_addon : Policy → Principal → Bool
unfolding has_role
is_addon pol p = has_role p pol.addon_role

-- Allows; none is the caller of a request without a token.
unfoldable pub allows : Policy → Option Principal → Access → Bool
unfolding is_admin is_service is_addon
allows pol none a = false
allows pol (some p) viewer = true
allows pol (some p) admin = is_admin pol p
allows pol (some p) worker = is_admin pol p || is_service pol p
allows pol (some p) ingest = is_admin pol p || is_service pol p || is_addon pol p
allows pol (some p) addon = is_admin pol p || is_addon pol p

-- ===== src/Auth/Access/Ranks.antt =====
-- The operations are ranked: a caller that may do more may do less.
use katalog_manager.Base.{◌≡◌, Bool, true, false, Option, some, [], arith}
use katalog_manager.Base.Text.{is_empty}
use katalog_manager.Auth.Access.{
  Access, viewer, admin, worker, ingest, addon, Policy, Principal, allows, is_admin, is_service,
  is_addon, has_role,
}

-- What an operation's callers are: who may call the first may call the second.
abbrev pub within : Access → Access → Bool
within admin _ = true
within worker worker = true
within worker ingest = true
within worker viewer = true
within ingest ingest = true
within ingest viewer = true
within addon addon = true
within addon ingest = true
within addon viewer = true
within viewer viewer = true
within _ _ = false

-- A caller that may call an operation may call every one that admits more callers: an admin all of
-- them, a worker and an addon the ingest too, anyone signed in what a viewer may.
pub allows-within :
    (pol : Policy) (p : Option Principal) (a b : Access)
    → within a b ≡ true
    → allows pol p a ≡ true
    → allows pol p b ≡ true
unfolding allows
allows-within pol p a b h k = ground arith

-- The zero policy, with no roles and no clients, admits to anything but a viewer's operation only a
-- caller of a service whose auth is off.
pub allows-zero :
    (pol : Policy) (p : Principal)
    → is_empty pol.admin_role ≡ true
    → is_empty pol.addon_role ≡ true
    → pol.service_clients ≡ []
    → (allows pol (some p) viewer ≡ true)
      × (allows pol (some p) admin ≡ p.unrestricted)
      × (allows pol (some p) worker ≡ p.unrestricted)
      × (allows pol (some p) ingest ≡ p.unrestricted)
      × (allows pol (some p) addon ≡ p.unrestricted)
unfolding allows is_admin is_service is_addon has_role
allows-zero pol p ha hd hs = rw (ha, hd, hs) (ground arith)

-- ===== src/Tests/Auth.antt =====
-- Cases of the authorization's theorems.
use katalog_manager.Base.{◌≡◌, refl, true, false, none, some, [], ◌∷◌}
use katalog_manager.Base.Text.{codes}
use katalog_manager.Auth.Access.{Policy, Principal, worker, allows, is_service, is_admin}
use katalog_manager.Auth.Rating.{Viewer, whole}

abbrev platform : Policy
platform = record {
  admin_role = codes "admin";
  addon_role = codes "addon";
  service_clients = codes "pipeline" ∷ [];
}

abbrev pipeline : Principal
pipeline = record { unrestricted = false; stream = false; client = codes "pipeline"; roles = [] }

pipeline_works : allows platform (some pipeline) worker ≡ true
unfolding allows is_admin is_service
pipeline_works = refl

abbrev child : Viewer
child = record { stream = false; stream_cap = none; claim = some (whole 12) }

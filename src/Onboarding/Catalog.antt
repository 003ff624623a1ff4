-- ===== src/Onboarding/Catalog.antt =====
-- The permissions that the application knows: application-permission-catalog.ts of
-- apps/api/src/access-management, with the keys of the components' files.
use tteeka.Prelude.{String, List, [], ◌∷◌, map}

unfoldable pub application_permission_catalog : List (String × String)
application_permission_catalog =
    ("catalogue.manage", "Manage merchant product catalogue")
    ∷ ("catalogue.price.manage", "Manage merchant catalogue pricing and cost history")
    ∷ ("catalogue.read", "Read merchant product catalogue")
    ∷ ("customers.manage", "Manage merchant customers and delivery locations")
    ∷ ("customers.read", "Read merchant customers and delivery locations")
    ∷ ("deliveries.manage", "Manage merchant delivery jobs and attempts")
    ∷ ("deliveries.read", "Read merchant delivery jobs and attempts")
    ∷ ("inventory.manage", "Receive and manually adjust merchant inventory")
    ∷ ("inventory.read", "Read merchant inventory and movement history")
    ∷ ("merchant.profile.manage", "Manage merchant profile information")
    ∷ ("merchant.profile.read", "Read merchant profile information")
    ∷ ("merchant.roles.manage", "Manage merchant roles and role assignments")
    ∷ ("merchant.roles.read", "Read merchant roles and assignable permissions")
    ∷ ("merchant.settings.manage", "Manage merchant core operational settings")
    ∷ ("merchant.settings.read", "Read merchant core operational settings")
    ∷ ("merchant.staff.manage", "Manage merchant staff memberships")
    ∷ ("merchant.staff.read", "Read merchant staff memberships")
    ∷ ("orders.manage", "Manage merchant draft orders")
    ∷ ("orders.read", "Read merchant orders and commercial snapshots")
    ∷ ("payments.manage", "Report and manually verify merchant payments")
    ∷ ("payments.read", "Read merchant payment transactions and summaries")
    ∷ []

unfoldable pub application_permission_keys : List String
unfolding application_permission_catalog
application_permission_keys =
    map (λ (entry : String × String). entry.0) application_permission_catalog

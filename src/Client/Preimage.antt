-- ===== src/Client/Preimage.antt =====
-- client/src/preimage.rs.
use winterwallet.Prelude.{List, [], ◌∷◌, ◌++◌}
use winterwallet.Bytes.{Bytes}
use winterwallet.Common.{winterwallet_initialize, winterwallet_advance}

unfoldable pub initialize_preimage : List Bytes
initialize_preimage = winterwallet_initialize ∷ []

unfoldable pub advance_preimage : Bytes → Bytes → Bytes → List Bytes → Bytes → List Bytes
advance_preimage id current_root new_root account_addresses payload =
    winterwallet_advance ∷ id ∷ current_root ∷ new_root ∷ (account_addresses ++ (payload ∷ []))

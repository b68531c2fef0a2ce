-- ===== src/Examples/Keys.antt =====
-- Runs of the signature scheme (core/src).
use winterwallet.Prelude.{
  ◌+◌, ◌^◌, ◌*◌, ◌≤◌, ◌≡◌, ◌⊎◌, ◌↔◌, refl, List, [], ◌∷◌, true, arith, length, replicate, take, map,
  none, ok,
}
use winterwallet.Bytes.{Bytes, IsByte, IsBytes, u64_mod}
use winterwallet.Core.Layout.{IsLaidOut, IsScalar, all_scalars}
use winterwallet.Core.Signature
use winterwallet.Core.Pubkey
use winterwallet.Core.Pubkey.{WinternitzPubkey}
use winterwallet.Core.Privkey
use winterwallet.Core.Privkey.{WinternitzPrivkey, sign, sign_loop, sign_prehashed, to_pubkey}
use winterwallet.Core.Privkey.Recover.{sign-IsLaidOut, recover_pubkey-sign}
use winterwallet.Core.Verify.{verify, recover_pubkey-IsLaidOut, verify-sign, verify_binding}
use winterwallet.Core.Checksum.{
  deficit, Dominated, chains, rounds, rounds_antichain, sign_prehashed-rounds, checksum_sum_exact,
}
use winterwallet.Core.Merkle.{merklize, push_leaves, max_depth, leaf_hash}
use winterwallet.Core.Merkle.Inputs.{Collision, merklize_inputs}
use winterwallet.Core.Merkle.Binding.{merklize_binding}
use winterwallet.Core.Merkle.Tree.{tree_root, merklize-tree_root}
use winterwallet.Core.Merkle.Depth.{push_leaves_depth}
use mathlib.Core.Path.{subst}
use winterwallet.Core.Wire.{signature_parsed, try_from-as_bytes, as_bytes-try_from}
use winterwallet.Core.Keypair.{derive, increment_child, sign_and_increment}
use winterwallet.Core.Keypair.Position.{
  IsInRange, position, increment_child-position, increment_child-last, sign_and_increment-verify,
}
use winterwallet.Core.Keypair.Folding.{derive_folded}
use winterwallet.Examples.World.{All-replicate, test_hasher, test_hmac, keypair, next_keypair}

abbrev private_key : WinternitzPrivkey
private_key = record {
  scalars = replicate 16 (replicate 32 4);
  checksum = (replicate 32 5, replicate 32 6);
}

abbrev message : List Bytes
message = (1 ∷ 2 ∷ 3 ∷ []) ∷ []

private_key-IsLaidOut : IsLaidOut 16 (Privkey.fields private_key)
private_key-IsLaidOut = (refl, All-replicate IsScalar 16 (replicate 32 4) refl, refl, refl)

abbrev public_key : WinternitzPubkey
public_key = record { scalars = private_key.scalars; checksum = private_key.checksum }

abbrev signature : Signature.WinternitzSignature
signature = sign 16 private_key message

signature-IsLaidOut : IsLaidOut 16 (Signature.fields signature)
signature-IsLaidOut = sign-IsLaidOut 16 private_key message (omega arith) private_key-IsLaidOut

abbrev recovered : WinternitzPubkey
recovered = Signature.recover_pubkey 16 signature message

recovered-IsLaidOut : IsLaidOut 16 (Pubkey.fields recovered)
recovered-IsLaidOut =
    recover_pubkey-IsLaidOut 16 signature message (omega arith) signature-IsLaidOut

keypair-IsInRange : IsInRange keypair
keypair-IsInRange = record { parent = omega arith; child = omega arith }

verify-sign_example :
    verify 16 (sign 16 private_key message) message (merklize (to_pubkey private_key)) ≡ true
verify-sign_example = verify-sign 16 private_key message (omega arith) refl

to_pubkey-IsLaidOut : IsLaidOut 16 (Pubkey.fields (to_pubkey private_key))
to_pubkey-IsLaidOut =
    subst (λ pk. IsLaidOut 16 (Pubkey.fields pk))
      (recover_pubkey-sign 16 private_key message (omega arith) refl) recovered-IsLaidOut

verify_binding_example :
    (recovered ≡ to_pubkey private_key)
    ⊎ Collision (merklize_inputs recovered) (merklize_inputs (to_pubkey private_key))
verify_binding_example =
    verify_binding 16 signature message (to_pubkey private_key) (omega arith) signature-IsLaidOut
      to_pubkey-IsLaidOut (verify-sign 16 private_key message (omega arith) refl)

abbrev digits : Bytes
digits = 200 ∷ 0 ∷ 255 ∷ replicate 13 40

digits-IsBytes : IsBytes digits
digits-IsBytes =
    (omega arith, (omega arith, (omega arith, All-replicate IsByte 13 40 (omega arith))))

Dominated-refl : (ds : Bytes) → Dominated ds ds
Dominated-refl [] = tt
Dominated-refl (d ∷ ds) = (omega arith, Dominated-refl ds)

rounds_antichain_example : digits ≡ digits
rounds_antichain_example =
    rounds_antichain private_key digits digits refl refl (omega arith) digits-IsBytes
      (Dominated-refl (rounds private_key digits))

sign_prehashed-rounds_example :
    all_scalars (Signature.fields (sign_prehashed private_key digits))
    ≡ chains (all_scalars (Privkey.fields private_key)) (rounds private_key digits)
sign_prehashed-rounds_example = sign_prehashed-rounds private_key digits refl

checksum_sum_exact_example : (sign_loop private_key.scalars digits 0).1 ≡ deficit digits
checksum_sum_exact_example = checksum_sum_exact private_key digits refl (omega arith)

merklize-tree_root_example :
    merklize public_key
    ≡ tree_root
        (length (all_scalars (Pubkey.fields public_key)))
        (map leaf_hash (all_scalars (Pubkey.fields public_key)))
merklize-tree_root_example = merklize-tree_root public_key

merklize_binding_example :
    (public_key ≡ public_key) ⊎ Collision (merklize_inputs public_key) (merklize_inputs public_key)
merklize_binding_example =
    merklize_binding 16 public_key public_key private_key-IsLaidOut private_key-IsLaidOut refl

push_leaves_depth_example :
    length (push_leaves (take 11 (all_scalars (Pubkey.fields public_key))) []) ≤ max_depth
push_leaves_depth_example =
    push_leaves_depth 16 (Pubkey.fields public_key) 11 (omega arith) private_key-IsLaidOut

try_from-as_bytes_example :
    (Signature.try_from 16 (Signature.as_bytes signature) ≡ ok signature)
    × (Pubkey.try_from 16 (Pubkey.as_bytes public_key) ≡ ok public_key)
    × (Privkey.try_from 16 (Privkey.as_bytes private_key) ≡ ok private_key)
try_from-as_bytes_example =
    try_from-as_bytes 16 signature public_key private_key signature-IsLaidOut private_key-IsLaidOut
      private_key-IsLaidOut

as_bytes-try_from_example :
    (length (Signature.as_bytes signature) ≡ 18 * 32)
    × (Signature.as_bytes signature ≡ Signature.as_bytes signature)
    × IsLaidOut 16 (Signature.fields signature)
as_bytes-try_from_example =
    as_bytes-try_from 16 (Signature.as_bytes signature) signature
      (signature_parsed 16 signature signature-IsLaidOut)

increment_child-position_example :
    (position next_keypair ≡ position keypair + 1)
    × IsInRange next_keypair
    × (next_keypair.wallet ≡ keypair.wallet)
    × (next_keypair.key ≡ keypair.key)
    × (next_keypair.chain_code ≡ keypair.chain_code)
unfolding increment_child
increment_child-position_example =
    increment_child-position keypair next_keypair keypair-IsInRange refl

increment_child-last_example : (increment_child keypair ≡ none) ↔ (position keypair + 1 ≡ u64_mod)
increment_child-last_example = increment_child-last keypair keypair-IsInRange

sign_and_increment-verify_example :
    (verify 22
        (sign 22 (derive 22 keypair) message)
        message
        (merklize (to_pubkey (derive 22 keypair)))
      ≡ true)
    × (position next_keypair ≡ position keypair + 1)
    × IsInRange next_keypair
unfolding sign_and_increment increment_child
sign_and_increment-verify_example =
    sign_and_increment-verify 22 keypair message (sign 22 (derive 22 keypair) message) next_keypair
      (omega arith) keypair-IsInRange refl

derive_folded_example :
    IsInRange (record keypair { child = 2 ^ 31 })
    × (position (record keypair { child = 2 ^ 31 }) ≡ position keypair + 2 ^ 31)
    × (derive 22 (record keypair { child = 2 ^ 31 }) ≡ derive 22 keypair)
derive_folded_example = derive_folded 22 keypair keypair-IsInRange (omega arith)

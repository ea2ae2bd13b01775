-- ===== src/Tests/ClientTests.antt =====
-- Checkpoints that two VMs save, one after the other, and the load by the next one.
use kapi_final.Base.{ℕ, ◌≤◌, ◌≡◌, refl, ap, true, Option, none, some, List, [], ◌∷◌, length, arith}
use kapi_final.ControlPlane.Checkpoints.{Codec, Checkpoint, Artifacts, max_bytes}
use kapi_final.Agent.Client.{Client, load_checkpoint, ◌>>=◌}
use kapi_final.Agent.Client.Upload.{IsCodec}
use kapi_final.Agent.Client.Stored.{new_client, no_artifacts, vm_saves, vms_save, IsDraft, stored}
use kapi_final.Agent.Client.Loaded.{saved_loads}

abbrev first_code : List ℕ → ℕ
first_code [] = 0
first_code (x ∷ _) = x

abbrev parse_one : List ℕ → Option ℕ
parse_one [] = none
parse_one (x ∷ _) = some x

-- A code in which a snapshot is one code unit, which is also its digest.
abbrev plain : Codec
plain = record {
  encode = λ b. b;
  decode = λ b. b;
  stringify = λ w. w ∷ [];
  parse = parse_one;
  digest = first_code;
  is_digest = λ _. true;
}

plain-IsCodec : IsCodec plain
plain-IsCodec = record {
  decoded = λ b. refl;
  grouped = λ b n part. refl;
  growth = λ b. omega arith;
  filled = λ b h. h;
  read = λ w. refl;
  written = λ w. omega arith;
  named = λ b. refl;
  no_collision = λ v w e. ap (λ x. x ∷ []) e;
}

abbrev early : Checkpoint
early = record { revision = none; rest = 1; workspace = some 7; workspace_ref = none }

abbrev later : Checkpoint
later = record { revision = none; rest = 2; workspace = some 8; workspace_ref = none }

fits : (w : ℕ) → length (plain.stringify w) ≤ max_bytes
unfolding max_bytes
fits w = omega arith

early-IsDraft : IsDraft plain early
early-IsDraft = (refl, λ w e. fits w)

later-IsDraft : IsDraft plain later
later-IsDraft = (refl, λ w e. fits w)

-- The first VM saves once, the second resumes and saves twice.
saved_loads_example :
    (cl : Client) × (a : Artifacts) × (r : Client) × ((vms_save plain
          ((early ∷ []) ∷ [])
          no_artifacts
        >>= vm_saves plain (later ∷ early ∷ []))
      ≡ some (cl, a))
    × (load_checkpoint plain new_client a ≡ some (r, some (stored plain 3 early)))
    × (cl.revision ≡ 3)
    × (3 ≤ r.revision)
saved_loads_example =
    saved_loads plain-IsCodec ((early ∷ []) ∷ []) (later ∷ []) early new_client
      ((early-IsDraft, tt), tt) (later-IsDraft, tt) early-IsDraft

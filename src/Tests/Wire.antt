-- ===== src/Tests/Wire.antt =====
-- The codes of the client's messages.
use ethereum_elc.Base.{ℕ, zero, suc, refl, Bool, true, false, Option, List, ◌≡◌}
use ethereum_elc.Std.{Duration}
use ethereum_elc.External.Proto.{
  ProtoTimestamp, ProtoHeight, ProtoFraction, ProtoForkParameters, RawFork, RawForkSpec,
}
use ethereum_elc.Raw.{RawClientState, RawConsensusState, RawHeader}
use ethereum_elc.Tests.Local.{LocalCommittee, LocalUpdate, LocalExecution}
use ethereum_elc.Tests.Instances.{local_crates}
use ethereum_elc.Tests.Coder.{Coder, number, integer, pair, by, option, list}

abbrev pub bytes : Coder (List ℕ)
bytes = list number

abbrev pub numbers : Coder (ℕ × ℕ)
numbers = pair number number

abbrev pub duration : Coder Duration
duration =
    by numbers (λ (d : Duration). (d.secs, d.subsec_nanos))
      (λ (s, n). record { secs = s; subsec_nanos = n }) (λ d. refl)

abbrev pub fraction : Coder ProtoFraction
fraction =
    by numbers (λ (f : ProtoFraction). (f.numerator, f.denominator))
      (λ (n, d). record { numerator = n; denominator = d }) (λ f. refl)

abbrev pub height : Coder ProtoHeight
height =
    by numbers (λ (h : ProtoHeight). (h.revision_number, h.revision_height))
      (λ (n, h). record { revision_number = n; revision_height = h }) (λ h. refl)

abbrev pub timestamp : Coder ProtoTimestamp
timestamp =
    by (pair integer integer) (λ (t : ProtoTimestamp). (t.seconds, t.nanos))
      (λ (s, n). record { seconds = s; nanos = n }) (λ t. refl)

abbrev pub fork_spec : Coder RawForkSpec
fork_spec =
    by (pair numbers (pair numbers (pair numbers number)))
      (λ (s : RawForkSpec). (
        (s.finalized_root_gindex, s.current_sync_committee_gindex),
        (
          (s.next_sync_committee_gindex, s.execution_payload_gindex),
          (
            (s.execution_payload_state_root_gindex, s.execution_payload_block_number_gindex),
            s.execution_block_hash_gindex,
          ),
        ),
      ))
      (λ ((a, b), ((c, d), ((e, f), g))). record {
        finalized_root_gindex = a;
        current_sync_committee_gindex = b;
        next_sync_committee_gindex = c;
        execution_payload_gindex = d;
        execution_payload_state_root_gindex = e;
        execution_payload_block_number_gindex = f;
        execution_block_hash_gindex = g;
      })
      (λ s. refl)

abbrev pub fork : Coder RawFork
fork =
    by (pair bytes (pair number (option fork_spec)))
      (λ (f : RawFork). (f.version, (f.epoch, f.spec)))
      (λ (v, (e, s)). record { version = v; epoch = e; spec = s }) (λ f. refl)

abbrev pub fork_parameters : Coder ProtoForkParameters
fork_parameters =
    by (pair bytes (list fork)) (λ (p : ProtoForkParameters). (p.genesis_fork_version, p.forks))
      (λ (v, f). record { genesis_fork_version = v; forks = f }) (λ p. refl)

abbrev pub client_state : Coder RawClientState
client_state =
    by
      (pair (pair bytes (pair numbers (option fork_parameters))) (
        pair (pair number (pair numbers (pair bytes bytes))) (
          pair (option fraction)
            (pair (pair (option duration) (option duration)) (pair number (option height))))))
      (λ (s : RawClientState). (
        (
          s.genesis_validators_root,
          ((s.min_sync_committee_participants, s.genesis_time), s.fork_parameters),
        ),
        (
          (
            s.seconds_per_slot,
            (
              (s.slots_per_epoch, s.epochs_per_sync_committee_period),
              (s.ibc_address, s.ibc_commitments_slot),
            ),
          ),
          (
            s.trust_level,
            (
              (s.trusting_period, s.max_clock_drift),
              (s.latest_execution_block_number, s.frozen_height),
            ),
          ),
        ),
      ))
      (λ ((a, ((b, c), d)), ((e, ((f, g), (h, i))), (j, ((k, l), (m, n))))). record {
        genesis_validators_root = a;
        min_sync_committee_participants = b;
        genesis_time = c;
        fork_parameters = d;
        seconds_per_slot = e;
        slots_per_epoch = f;
        epochs_per_sync_committee_period = g;
        ibc_address = h;
        ibc_commitments_slot = i;
        trust_level = j;
        trusting_period = k;
        max_clock_drift = l;
        latest_execution_block_number = m;
        frozen_height = n;
      })
      (λ s. refl)

abbrev pub consensus_state : Coder RawConsensusState
consensus_state =
    by (pair number (pair bytes (pair (option timestamp) (pair bytes bytes))))
      (λ (s : RawConsensusState). (
        s.slot,
        (s.storage_root, (s.timestamp, (s.current_sync_committee, s.next_sync_committee))),
      ))
      (λ (a, (b, (c, (d, e)))). record {
        slot = a;
        storage_root = b;
        timestamp = c;
        current_sync_committee = d;
        next_sync_committee = e;
      })
      (λ s. refl)

abbrev pub flag : ℕ → Bool
flag zero = false
flag (suc n) = true

abbrev pub flag_number : Bool → ℕ
flag_number false = 0
flag_number true = 1

pub flag_same : (b : Bool) → flag (flag_number b) ≡ b
flag_same false = refl
flag_same true = refl

abbrev pub boolean : Coder Bool
boolean = by number flag_number flag flag_same

abbrev pub committee : Coder LocalCommittee
committee =
    by (pair numbers (pair number boolean))
      (λ (c : LocalCommittee). ((c.height.number, c.height.block), (c.key, c.next)))
      (λ ((n, b), (k, x)). record { height = record { number = n; block = b }; key = k; next = x })
      (λ c. refl)

abbrev pub update : Coder LocalUpdate
update =
    by numbers (λ (u : LocalUpdate). (u.slot, u.next_key))
      (λ (s, k). record { slot = s; next_key = k }) (λ u. refl)

abbrev pub execution : Coder LocalExecution
execution =
    by (pair number numbers) (λ (e : LocalExecution). (e.root, (e.block, e.seconds)))
      (λ (r, (b, s)). record { root = r; block = b; seconds = s }) (λ e. refl)

abbrev pub header : Coder RawHeader
header =
    by (pair (option committee) (pair (option update) (pair (option execution) (option number))))
      (λ (h : RawHeader).
        (h.trusted_sync_committee, (h.consensus_update, (h.execution_update, h.account_update))))
      (λ (a, (b, (c, d))). record {
        trusted_sync_committee = a;
        consensus_update = b;
        execution_update = c;
        account_update = d;
      })
      (λ h. refl)

-- The evidence of one client, whose name is not written.
abbrev pub evidence : Coder (Option LocalCommittee × (Option LocalUpdate × Option LocalUpdate))
evidence = pair (option committee) (pair (option update) (option update))

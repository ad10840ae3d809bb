-- ===== src/TfScheduler/Threads/Decisions.antt =====
-- What becomes of a time frame in SchedulingThread (src/TfScheduler/TfSchedulerStfInfo.cxx).
use data_distribution.Prelude.{ℕ, ◌≡◌, refl, ◌⊎◌, inl, inr, String, nat_eq}
use data_distribution.Common.Bitset.{DynamicBitset}
use data_distribution.TfScheduler.Messages.{BuildTfStatus, error_nomem, error_not_running, other}
use data_distribution.TfScheduler.TfBuilders.{
  Selected, Rejection, selected, rejected, mark_tf_builder_with_tf_id, remove_ready_tf_builder,
}
use data_distribution.TfScheduler.StfInfo.{StfInfo, request_drop_all}
use data_distribution.TfScheduler.Threads.{World, Rpc, no_client, grpc_error, answered, dropped}

pub Selected-cases :
    (s : Selected)
    → ((why : Rejection) × (s ≡ rejected why)) ⊎ ((name : String) × (s ≡ selected name))
Selected-cases (selected name) = inr (name, refl)
Selected-cases (rejected why) = inl (why, refl)

abbrev pub IsUnreachable : Rpc → Type 0
IsUnreachable r = (r ≡ no_client) ⊎ (r ≡ grpc_error)

abbrev pub IsTurnedDown : Rpc → Type 0
IsTurnedDown r = (r ≡ answered error_nomem) ⊎ (r ≡ answered error_not_running)

module _ {Bits : Type 0} ⦃B : DynamicBitset Bits⦄ where
  -- What the answer of the selected TfBuilder makes of the state.
  abbrev pub Concluded : ℕ → String → Rpc → World Bits → World Bits → Type 0
  Concluded k name r w w' =
      ((r ≡ answered BuildTfStatus.ok)
        × (w' ≡ record w { builders = (mark_tf_builder_with_tf_id name k w.builders).1 }))
      ⊎ (IsUnreachable r
          × (w'.scheduler ≡ request_drop_all k w.scheduler)
          × (w'.builders ≡ remove_ready_tf_builder name w.builders))
      ⊎ (IsTurnedDown r × (w' ≡ dropped k w))
      ⊎ ((r ≡ answered other) × (w' ≡ w))

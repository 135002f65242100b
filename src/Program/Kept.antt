-- ===== src/Program/Kept.antt =====
-- What the whole program leaves alone in a run of the OSC controller, and where it is stuck.
use operating_system_manager.Prelude.{String, none, some, ◌≡◌, ◌≢◌}
use operating_system_manager.Prelude.Result.{ok}
use operating_system_manager.Crd.{Osp, Osc}
use operating_system_manager.Machine.{Key, MachineDeployment, ProviderConfig}
use operating_system_manager.Finalizers.{Sets}
use operating_system_manager.ContainerRuntime.Flags.{Credentials}
use operating_system_manager.Generator.Generate
use operating_system_manager.Osc.Api.{Api, Sdk, Settings}
use operating_system_manager.Osc.Api.Laws.{Content, IsLawful}
use operating_system_manager.Osc.Secrets.{calculate_annotations_hash}
use operating_system_manager.Osc.Configs.{osc_key_of}
use operating_system_manager.Osc.Reconciler.{osp_key, reconcile}
use operating_system_manager.Osc.Current.{IsMarked}
use operating_system_manager.Osc.Immutable.{Holds, reconcile-immutable}
use operating_system_manager.Osc.Frame.{SecretThere, secrets-reconcile}
use operating_system_manager.Osc.Edge.{LeftBehind, script_key, reconcile-stuck}
use operating_system_manager.Bootstrap.Cluster.{Cluster, Options}
use operating_system_manager.Bootstrap.Laws.{IsLawfulCluster}
use operating_system_manager.Resources.Generate.{Tools, parse_provider_config}
use operating_system_manager.Program.Settled.{
  parts, parts-PartsKeep_presence, parts-PartsKeep_secrets, parts-NamesOsc, parts-ForEdge,
}

module _ (A : Api) (L : IsLawful A) (C : Cluster A.State) (M : IsLawfulCluster L C) (o : Options)
    (J : Credentials) (T : Tools) (B : Generate.Library) (K : Sdk) (S : Sets) (r : Settings)
    (md : MachineDeployment) where
  abbrev run : A.State → Content
  run s = L.content (reconcile A K S (parts A L C M o J T B) r md s).1

  -- With the other packages as they are, where the API server, the clock and the encoders of times
  -- are lawful and the OSP that the MachineDeployment names is stored: an OSC whose annotations hold
  -- the current revision, OSP version and annotation hash is the same object after a run, and a
  -- Secret that was stored at a key still is one, whatever the outcome.
  pub program-immutable :
      (osp : Osp) (mdhash : String) (osc : Osc) (j : Key)
      → calculate_annotations_hash K md.annotations ≡ ok mdhash
      → IsMarked K md osp mdhash osc
      → (s : A.State) → (L.content s).osps (osp_key A K S (parts A L C M o J T B) r md) ≡ some osp
      → Holds (osc_key_of r md) osc j (L.content s)
      → Holds (osc_key_of r md) osc j (run s)
  program-immutable osp mdhash osc j hashed marked s named h =
      reconcile-immutable A L K S (parts A L C M o J T B) r md osp mdhash osc j hashed marked
        (parts-PartsKeep_presence A L C M o J T B (osc_key_of r md) (some osc) j)
        (parts-NamesOsc A L C M o J T B) s named h

  -- With the other packages as they are, where the API server, the clock and the encoders of times
  -- are lawful: a run that starts without the OSC removes no Secret; one that was stored at a key
  -- still is one, whatever the outcome.
  pub program-secrets :
      (j : Key) (s : A.State)
      → (L.content s).oscs (osc_key_of r md) ≡ none
      → SecretThere j (L.content s)
      → SecretThere j (run s)
  program-secrets j s absent there =
      secrets-reconcile A L K S (parts A L C M o J T B) r md j
        (parts-PartsKeep_secrets A L C M o J T B j) (parts-NamesOsc A L C M o J T B) s absent there

  -- With the other packages as they are, where the API server, the clock and the encoders of times
  -- are lawful: for a MachineDeployment whose provider configuration is for the edge provider, a run
  -- that starts without its OSC but with a Secret of an earlier bootstrap script does not succeed.
  pub program-stuck :
      (config : ProviderConfig)
      → parse_provider_config T md ≡ ok config
      → config.cloud_provider ≡ "edge"
      → (s : A.State) → LeftBehind r md (L.content s)
      → (reconcile A K S (parts A L C M o J T B) r md s).0 ≢ ok tt
  program-stuck config decoded edge s left =
      reconcile-stuck A L K S (parts A L C M o J T B) r md
        (parts-PartsKeep_presence A L C M o J T B (osc_key_of r md) none (script_key md))
        (parts-ForEdge A L C M o J T B md config decoded edge) s left

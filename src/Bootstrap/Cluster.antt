-- ===== src/Bootstrap/Cluster.antt =====
-- What pkg/bootstrap is given besides the client of the OSC controller, and its settings.
use operating_system_manager.Prelude.{String, ℕ, Option, List}
use operating_system_manager.Prelude.Result.{Result}
use operating_system_manager.Prelude.Exec.{Exec}
use operating_system_manager.Machine.{Key, Secret, Kubeconfig}
use operating_system_manager.ClusterInfo.{Source}

-- corev1.ServiceAccount
pub record ServiceAccount : Type 0 where
  pub name : String
  pub namespace : String
  pub secrets : List String

-- Requests that only this package makes, the clock, the random texts of k8s.io/apimachinery, and
-- the encoders. A time counts nanoseconds from a whole second before every time that RFC 3339 can
-- write.
pub record Cluster (S : Type 0) : Type 1 where
  pub source : Source S
  pub Unstructured : Type 0
  -- an object by its kind
  pub get_unstructured : String → Key → Exec S Unstructured
  pub marshal_json : Unstructured → Result String
  pub unmarshal_service_account : String → Result ServiceAccount
  pub unmarshal_secret : String → Result Secret
  -- the error of labels.NewRequirement for a value that is no label's value
  pub check_label : String → Result (Unit {0})
  -- the Secrets of a namespace that have a label, given by its key and its value
  pub list_secrets : String → String → String → Exec S (List Secret)
  pub now : S → ℕ × S
  pub random_text : ℕ → S → String × S
  -- time.Parse and Time.Format at RFC 3339
  pub parse_time : String → Result ℕ
  pub format_time : ℕ → String
  -- clientcmd.Write
  pub write_kubeconfig : Kubeconfig → Result String

-- Bootstrap, without its clients, and the CA certificate of its kubeconfig provider
pub record Options : Type 0 where
  pub service_account : Option Key
  pub override_server : String
  pub ca_cert : String

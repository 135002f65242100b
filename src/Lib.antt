-- ===== src/Lib.antt =====
-- A model of the operating-system-manager, which turns operating system profiles (OSPs) into the
-- user data of machines, and of what it promises.
--
-- For each MachineDeployment the OSC controller keeps an OperatingSystemConfig (OSC), made from the
-- OSP that the MachineDeployment names, and two Secrets with the user data that the generator makes
-- of the OSC. The OSP controller keeps the default OSPs in the cluster. The webhooks validate OSPs and
-- OSCs, and add an OSP to a MachineDeployment that names none. The container runtime package turns
-- flags into the configuration of containerd. An OSC is made by the resources package, which renders
-- the files of the OSP on the data of the machine; a new machine gets a bootstrap kubeconfig, with a
-- token that the bootstrap package makes or renews, for the API server that the clusterinfo package
-- finds.
--
-- Prelude: shared names, texts, association lists for Go's maps, errors as values (Result), and code
--   that calls an API server (Exec: a state goes in and comes back beside the result).
-- Crd: pkg/crd/osm/v1alpha1, the types OperatingSystemProfile and OperatingSystemConfig.
-- Machine: what is read of MachineDeployments, Secrets and kubeconfigs.
-- Osc: pkg/controllers/osc. Osc/Api holds what the controller is given: its two API clients, as
--   functions on an unknown state; the constants of the machine-controller SDK; and the other parts
--   of the program that it calls (bootstrap.CreateBootstrapKubeconfig, GenerateOperatingSystemConfig
--   and so on), which Program fills in. Osc/Names are the names and annotations; Osc/Secrets is
--   ensureCloudConfigSecret and deleteGeneratedSecrets; Osc/Configs is handleOSCAndSecretsRotation, generateEdgeScript and
--   reconcileOperatingSystemConfigs; Osc/Reconciler is the rest, up to Reconcile. Osc/Api/Laws says
--   what is relied on of the API servers, Osc/Api/Keeps carries an invariant of the stored objects
--   through a program, and Osc/Invariants does so for each function of the controller.
-- Osp: pkg/controllers/osp and pkg/resources/reconciling. Osp/Files is loadDefaultOSPs, Osp/Controller
--   is reconcileOSP, ReconcileOperatingSystemProfiles and Add.
-- Admission: pkg/admission, one file for each of the three handlers.
-- Generator: pkg/generator. Generator/Provisioner is GetProvisioningUtility, Generator/Generate is
--   Generate, deduplicateSSHKeys and toIgnition, Generator/Templates the texts of the templates.
-- ContainerRuntime: pkg/containerruntime. Config and Flags are containerruntime.go, flags.go and
--   config.go; Hosts is containerd.go.
-- ProviderConfig: pkg/providerconfig, the defaults and the loading of each operating system.
-- Finalizers: pkg/kubernetes/helper.go.
-- Resources: pkg/controllers/osc/resources/operating_system_config.go. Resources/Data is filesData,
--   Resources/Kubelet is getKubeletConfigs, Resources/Files is renderOSPFiles with what it calls, and
--   Resources/Generate is GenerateOperatingSystemConfig with its other steps.
-- CloudProvider: pkg/cloudprovider. The file itself is cloudprovider.go, which provider has a cloud
--   configuration; Aws, Azure, Gce, Kubevirt, Openstack and Vsphere below it are the packages that
--   make one, each with its template executed; Resolver is what these are given, with the steps that
--   they share, and Ini is pkg/util/ini/escape.go.
-- ClusterInfo: pkg/clusterinfo, GetKubeconfig and what it falls back to.
-- Bootstrap: pkg/bootstrap. Bootstrap/Token is createBootstrapToken and getTokenFromServiceAccount,
--   Bootstrap/Kubeconfig is CreateBootstrapKubeconfig and ExtractAPIServerToken; Bootstrap/Cluster is
--   what they are given, and Bootstrap/Laws what they rely on.
-- Program: the parts of the OSC controller as cmd/osm-controller/main.go connects them; Program/Flags
--   is parseClusterDNSIPs and parseKubeletFeatureGates. The parts of the controller that are left open
--   in Osc are these packages there.
--
-- What is assumed. A read of the API server answers with what is stored, or fails; in particular the
-- client's cache is taken to be up to date. A write that is confirmed has been made, one that fails
-- has changed nothing; any request may fail at any time. An update of an object that is marked for
-- deletion and has no finalizer left removes it. A create is confirmed only where nothing was
-- stored, and a delete reports a missing object only where none is stored. Nobody else writes during
-- a run, and resource versions are not modelled. Libraries (JSON, YAML, TOML, URLs, base64, the
-- resolver of the machine-controller SDK, templates, SHA-256, sets, sorting, the Ignition transpiler,
-- k8c.io/reconciler) are parameters, with the laws that are
-- used as hypotheses. A nil slice and an empty one are the same, and so are maps. A range loop over a
-- map runs in the order of the association list, which is any order. Logging is left out.
--
-- Every loop of the code is a structural recursion on a list or a text, so no fuel is needed, but for
-- the decimal form of a number, whose fuel is the number itself and so at least its digits.
--
-- The clock is read by the code, does not go back, and counts nanoseconds; a time that is written and
-- parsed again has lost what is less than a second. Decimal numbers of 32 bits are parsed as
-- strconv.ParseInt does, with its two kinds of errors.
--
-- Not modelled: the encoders that templates may call (pkg/util/funcmap), the durations and the strict
-- JSON decoder of pkg/util, which only call the standard library, logging, certificates, and of the
-- programs under cmd the other flags and the managers, which are wiring.
pub mod Prelude
pub mod Crd
pub mod Machine
pub mod ProviderConfig
pub mod Generator
pub mod ContainerRuntime
pub mod Finalizers
pub mod Osc
pub mod Osp
pub mod Admission
pub mod CloudProvider
pub mod ClusterInfo
pub mod Bootstrap
pub mod Resources
pub mod Program

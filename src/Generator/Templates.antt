-- ===== src/Generator/Templates.antt =====
-- pkg/generator/generator.go: the two templates of the user data, line by line.
use operating_system_manager.Prelude.{String, ◌<>◌, List, [], ◌∷◌}

unfoldable pub joined : List String → String
joined [] = ""
joined (x ∷ []) = x
joined (x ∷ y ∷ ys) = x <> ("\n" <> joined (y ∷ ys))

unfoldable pub cloud_init_template : String
unfolding joined
cloud_init_template = joined (
    "#cloud-config" ∷ "{{- /* Hostname is configured only for the bootstrap configuration */}}"
    ∷ "{{- if eq .ConfigurationType \"bootstrap\" -}}" ∷ "{{- if ne .CloudProviderName \"aws\" -}}"
    ∷ "{{- /* Never set the hostname on AWS nodes. Kubernetes(kube-proxy) requires the hostname to be the private dns name */}}"
    ∷ "{{- /* machine-controller will replace \"<MACHINE_NAME>\" placeholder with the name of the machine */}}"
    ∷ "hostname: <MACHINE_NAME>" ∷ "{{- end -}}" ∷ "{{ end }}" ∷ ""
    ∷ "{{ if .OSConfig.DistUpgradeOnBoot -}}" ∷ "package_upgrade: true"
    ∷ "package_reboot_if_required: true" ∷ "{{ end -}}" ∷ "" ∷ "ssh_pwauth: false" ∷ ""
    ∷ "ssh_authorized_keys:" ∷ "{{ range $_, $key := .UserSSHKeys -}}" ∷ "- '{{ $key }}'"
    ∷ "{{ end -}}" ∷ "" ∷ "write_files:" ∷ "{{- range $_, $file := .Files }}"
    ∷ "- path: '{{ $file.Path }}'" ∷ "  permissions: '{{or $file.Permissions 0644}}'"
    ∷ "{{- if $file.Encoding }}" ∷ "  encoding: '{{ $file.Encoding }}'" ∷ "{{- end }}"
    ∷ "  content: |-" ∷ "{{ $file.Content | indent 4 }}" ∷ "{{ end }}" ∷ ""
    ∷ "{{- /* Hostname is configured only for the bootstrap configuration */}}"
    ∷ "{{- if eq .ConfigurationType \"bootstrap\" -}}" ∷ "{{ if ne .CloudProviderName \"aws\" }}"
    ∷ "{{- /* Never set the hostname on AWS nodes. Kubernetes(kube-proxy) requires the hostname to be the private dns name */}}"
    ∷ "{{- /* machine-controller will replace \"<MACHINE_NAME>\" placeholder with the name of the machine */}}"
    ∷ "- path: /etc/machine-name" ∷ "  permissions: '0600'" ∷ "  content: |-"
    ∷ "        <MACHINE_NAME>" ∷ "{{ end }}" ∷ "{{- end -}}" ∷ "" ∷ "{{- if .Units -}}" ∷ "coreos:"
    ∷ "  units:" ∷ "{{- range $_, $unit := .Units }}" ∷ "  - name: \"{{ $unit.Name }}\""
    ∷ "    enable: {{or $unit.Enable false}}" ∷ "    {{ if $unit.Enable -}}" ∷ "\tcommand: start"
    ∷ "\t{{- end }}" ∷ "    mask: {{or $unit.Mask false}}" ∷ "{{ with $unit.Content }}"
    ∷ "    content: |" ∷ "{{ . | indent 6 }}" ∷ "{{- end }}" ∷ "{{ with $unit.DropIns }}"
    ∷ "    drop_ins:" ∷ "{{- range $_, $dropIn := . }}" ∷ "      - name: \"{{ $dropIn.Name }}\""
    ∷ "        content: |" ∷ "{{ $dropIn.Content | indent 10 }}" ∷ "{{- end }}" ∷ "{{- end }}"
    ∷ "{{- end }}" ∷ "{{- end }}" ∷ "" ∷ "{{- if .CloudInitModules -}}"
    ∷ "{{ if .CloudInitModules.BootCMD }}" ∷ "bootcmd:"
    ∷ "{{- range $_, $cmd := .CloudInitModules.BootCMD }}" ∷ "- {{ $cmd }}" ∷ "{{- end }}"
    ∷ "{{ end }}" ∷ "" ∷ "{{- if .CloudInitModules.RunCMD }}" ∷ "runcmd:"
    ∷ "{{- range $_, $val := .CloudInitModules.RunCMD }}" ∷ "- {{ $val -}}" ∷ "{{ end }}"
    ∷ "{{ end }}" ∷ "" ∷ "{{- if .CloudInitModules.RHSubscription }}" ∷ "rh_subscription:"
    ∷ "{{- range $key, $val := .CloudInitModules.RHSubscription }}" ∷ "    {{ $key }}: {{ $val -}}"
    ∷ "{{ end }}" ∷ "{{ end }}" ∷ "" ∷ "{{- if .CloudInitModules.YumRepos }}" ∷ "yum_repos:"
    ∷ "{{- range $key, $val := .CloudInitModules.YumRepos }}" ∷ "    {{ $key }}:"
    ∷ "{{- range $prop, $propVal := $val }}" ∷ "       {{ $prop }}: {{ $propVal }}" ∷ "{{- end }}"
    ∷ "{{- end }}" ∷ "{{ end }}" ∷ "" ∷ "{{- if .CloudInitModules.YumRepoDir }}"
    ∷ "yum_repo_dir: {{ .CloudInitModules.YumRepoDir }}" ∷ "{{- end }}" ∷ "{{- end }}" ∷ [])

unfoldable pub ignition_template : String
unfolding joined
ignition_template = joined (
    "passwd:" ∷ "{{- if ne (len .UserSSHKeys) 0 }}" ∷ "  users:" ∷ "    - name: core"
    ∷ "      ssh_authorized_keys:" ∷ "        {{range .UserSSHKeys}}- {{.}}" ∷ "        {{end}}"
    ∷ "{{- end }}" ∷ "storage:" ∷ "  files:"
    ∷ "{{- /* Hostname is configured only for the bootstrap configuration */}}"
    ∷ "{{- if eq .ConfigurationType \"bootstrap\" -}}" ∷ "{{- if ne .CloudProviderName \"aws\" -}}"
    ∷ "{{- /* Never set the hostname on AWS nodes. Kubernetes(kube-proxy) requires the hostname to be the private dns name */}}"
    ∷ "{{- /* machine-controller will replace \"<MACHINE_NAME>\" placeholder with the name of the machine */}}"
    ∷ "  - path: /etc/machine-name" ∷ "    mode: 0600" ∷ "    filesystem: root" ∷ "    contents:"
    ∷ "        inline: '<MACHINE_NAME>'" ∷ "{{ end }}" ∷ "{{ end }}"
    ∷ "{{- range $_, $file := .Files }}" ∷ "  - path: '{{ $file.Path }}'"
    ∷ "    mode: {{or $file.Permissions 0644}}" ∷ "    filesystem: root" ∷ "    contents:"
    ∷ "        inline: |" ∷ "{{ $file.Content | indent 10 }}" ∷ "{{- end }}" ∷ "systemd:"
    ∷ "  units:" ∷ "{{- range $_, $unit := .Units }}" ∷ "  - name: {{ $unit.Name }}"
    ∷ "    enabled: {{or $unit.Enable false}}" ∷ "    mask: {{or $unit.Mask false}}"
    ∷ "{{ with $unit.Content }}" ∷ "    contents: |" ∷ "{{ . | indent 6 }}" ∷ "{{- end }}"
    ∷ "{{ with $unit.DropIns }}" ∷ "    dropins:" ∷ "{{- range $_, $dropIn := . }}"
    ∷ "      - name: {{ $dropIn.Name }}" ∷ "        contents: |"
    ∷ "{{ $dropIn.Content | indent 10 }}" ∷ "{{- end }}" ∷ "{{- end }}" ∷ "{{- end }}" ∷ "" ∷ [])

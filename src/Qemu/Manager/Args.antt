-- ===== src/Qemu/Manager/Args.antt =====
-- internal/qemu/manager.go: buildVMArgs, QEMU's command line.
use qudata_agent.Common.{ℕ, suc, not, List, [], is_nil, pos, ◌+◌, ◌++◌, ◌∷◌, ◌&&◌, if◌then◌else◌}
use qudata_agent.Common.Text.{Text, str, to_upper, trim_space}
use qudata_agent.Qemu.Manager.{VmConfig}
use qudata_agent.Qemu.Network.{NetworkConfig, net_args}
use qudata_agent.Common.Decimal.{itoa}

unfoldable pub firmware_args : Text → Text → List Text
firmware_args ovmf_code ovmf_vars_path =
    if not (is_nil ovmf_code) && not (is_nil ovmf_vars_path)
    then str "-drive"
      ∷ (str "if=pflash,format=raw,readonly=on,file=" ++ ovmf_code)
      ∷ str "-drive"
      ∷ (str "if=pflash,format=raw,file=" ++ ovmf_vars_path)
      ∷ []
    else []

unfoldable pub port_id : ℕ → Text
port_id i = str "pci." ++ itoa (pos (i + 1))

-- The loop over the GPUs, from index `i` on.
unfoldable pub gpu_args : ℕ → List Text → List Text
unfolding port_id
gpu_args i [] = []
gpu_args i (addr ∷ addrs) =
    str "-device"
    ∷ (str "pcie-root-port,id=" ++ (port_id i ++ str ",bus=pcie.0"))
    ∷ str "-device"
    ∷ (str "vfio-pci,host=" ++ (addr ++ (str ",bus=" ++ (port_id i ++ str ",rombar=0"))))
    ∷ gpu_args (suc i) addrs

unfoldable pub build_vm_args :
    VmConfig → Text → List Text → Text → NetworkConfig → Text → Text → Text → List Text
unfolding firmware_args gpu_args
build_vm_args cfg disk_path gpu_addrs qmp_socket net cpus mem ovmf_vars_path =
    (str "-machine"
      ∷ str "q35,accel=kvm"
      ∷ str "-global"
      ∷ str "q35-pcihost.pci-hole64-size=64G"
      ∷ str "-cpu"
      ∷ str "host"
      ∷ str "-smp"
      ∷ cpus
      ∷ str "-m"
      ∷ to_upper (trim_space mem)
      ∷ [])
    ++ (firmware_args cfg.ovmf_code ovmf_vars_path
        ++ ((str "-drive" ∷ (str "file=" ++ (disk_path ++ str ",format=qcow2,if=virtio")) ∷ [])
            ++ (gpu_args 0 gpu_addrs
                ++ ((str "-qmp"
                      ∷ (str "unix:" ++ (qmp_socket ++ str ",server,nowait"))
                      ∷ str "-nographic"
                      ∷ [])
                    ++ net_args net))))

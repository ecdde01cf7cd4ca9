-- ===== src/Examples/Whole.antt =====
-- A sample that fits under every label.
use atophttpd.Prelude.{refl, false, [], ◌∷◌, pos, codes}
use atophttpd.CString.{is_digit}
use atophttpd.Printf.{header, pieces, role}
use atophttpd.Json.Sample.{PerCpu, PerDsk, PerIntf, Sstat}
use atophttpd.Json.Lines.{times, plus, quot, to_int, first_cells, until_unnamed}
use atophttpd.Json.Print.Cpu.{
  json_calc_freqscale, sum_freqs, reset_instr, cpu_all_format, cpu_all_args, cpu_format, cpu_args,
}
use atophttpd.Json.Print.Memory.{mem_format, mem_args, swp_format, swp_args, pag_format, pag_args}
use atophttpd.Json.Print.Nfs.{nfc_format, nfc_args, nfs_format, nfs_args}
use atophttpd.Json.Print.Net.{net_format, net_args}
use atophttpd.Json.WellFormed.Cpu.{CpuAllFits, CpuFits}
use atophttpd.Json.WellFormed.Memory.{MemFits, SwpFits, PagFits}
use atophttpd.Json.WellFormed.Nfs.{NfcFits, NfsFits}
use atophttpd.Json.WellFormed.Net.{NetFits}
use atophttpd.Examples.Sample.{small_env, small_sstat}
use atophttpd.Examples.Fitting.{format_fits_lem}

-- One processor, and devices and interfaces without any.
abbrev processor : PerCpu
processor = record {
  stime = pos 2;
  utime = pos 3;
  ntime = pos 4;
  itime = pos 5;
  wtime = pos 6;
  irq_time = pos 7;
  softirq_time = pos 8;
  steal = pos 9;
  guest = pos 10;
  instr = pos 11;
  cycle = pos 12;
  cnt = pos 9000;
  ticks = pos 3;
  maxfreq = pos 4000;
}

abbrev unnamed_dsk : PerDsk
unnamed_dsk = record {
  name = [];
  io_ms = pos 0;
  nread = pos 0;
  ndisc = pos 0;
  nrsect = pos 0;
  nwrite = pos 0;
  nwsect = pos 0;
  avque = pos 0;
  inflight = pos 0;
}

abbrev unnamed_intf : PerIntf
unnamed_intf = record {
  name = [];
  rpack = pos 0;
  rbyte = pos 0;
  rerrs = pos 0;
  rdrop = pos 0;
  spack = pos 0;
  sbyte = pos 0;
  serrs = pos 0;
  sdrop = pos 0;
  speed = pos 0;
  scollis = pos 0;
  rmultic = pos 0;
  duplex = pos 0;
}

abbrev pub whole : Sstat
whole = record small_sstat {
  cpu = record small_sstat.cpu { nrcpu = pos 1; cpu = processor ∷ [] };
  psi = record small_sstat.psi { present = false };
  gpu = record { nrgpus = pos 0; gpu = [] };
  dsk = record { lvm = unnamed_dsk ∷ []; mdd = unnamed_dsk ∷ []; dsk = unnamed_dsk ∷ [] };
  nfs = record small_sstat.nfs { nrmounts = pos 0 };
  intf = unnamed_intf ∷ [];
  ifb = record { nrports = pos 0; ifb = [] };
  memnuma = record { nrnuma = pos 0; numa = [] };
  cpunuma = record { nrnuma = pos 0; numa = [] };
  llc = record { nrllcs = pos 0; perllc = [] };
}

pub cpu_all_fits : CpuAllFits small_env whole
unfolding first_cells sum_freqs json_calc_freqscale reset_instr cpu_all_format cpu_all_args times
    plus quot to_int pieces role is_digit
cpu_all_fits =
    format_fits_lem cpu_all_format
      (header (codes "CPU")
        ∷ cpu_all_args small_env (json_calc_freqscale (pos 4000) (pos 9000) (pos 3))
            (reset_instr whole))
      refl

pub cpu_fits : CpuFits whole
unfolding first_cells json_calc_freqscale cpu_format cpu_args times plus quot to_int pieces role
    is_digit
cpu_fits = (
  (λ e.
      format_fits_lem cpu_format
        (cpu_args (json_calc_freqscale (pos 4000) (pos 9000) (pos 3)) 0 processor) refl),
  tt,
)

pub mem_fits : MemFits small_env whole
unfolding mem_format mem_args times plus quot pieces role is_digit
mem_fits = format_fits_lem mem_format (header (codes "MEM") ∷ mem_args small_env whole) refl

pub swp_fits : SwpFits small_env whole
unfolding swp_format swp_args times plus quot pieces role is_digit
swp_fits = format_fits_lem swp_format (header (codes "SWP") ∷ swp_args small_env whole) refl

pub pag_fits : PagFits whole
unfolding pag_format pag_args times plus quot pieces role is_digit
pag_fits = format_fits_lem pag_format (header (codes "PAG") ∷ pag_args whole) refl

pub nfc_fits : NfcFits whole
unfolding nfc_format nfc_args times plus quot pieces role is_digit
nfc_fits = format_fits_lem nfc_format (header (codes "NFC") ∷ nfc_args whole) refl

pub nfs_fits : NfsFits whole
unfolding nfs_format nfs_args times plus quot pieces role is_digit
nfs_fits = format_fits_lem nfs_format (header (codes "NFS") ∷ nfs_args whole) refl

pub net_fits : NetFits whole
unfolding net_format net_args times plus quot pieces role is_digit until_unnamed
net_fits = (format_fits_lem net_format (net_args whole) refl, tt)

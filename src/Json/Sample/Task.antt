-- ===== src/Json/Sample/Task.antt =====
-- A process or thread in a sample.
use atophttpd.Prelude.{ℕ, ℤ, Bool, Bytes}

pub record TaskGen : Type 0 where
  pub pid : ℤ
  pub name : Bytes
  pub state : ℕ
  pub ruid : ℤ
  pub rgid : ℤ
  pub tgid : ℤ
  pub nthr : ℤ
  pub btime : ℤ
  pub cmdline : Bytes
  pub ppid : ℤ
  pub nthrrun : ℤ
  pub nthrslpi : ℤ
  pub nthrslpu : ℤ
  pub euid : ℤ
  pub egid : ℤ
  pub elaps : ℤ
  pub container : Bytes
  pub isproc : Bool
  pub excode : ℤ

pub record TaskCpu : Type 0 where
  pub utime : ℤ
  pub stime : ℤ
  pub nice : ℤ
  pub prio : ℤ
  pub curcpu : ℤ
  pub rundelay : ℤ
  pub blkdelay : ℤ
  pub sleepavg : ℤ

pub record TaskMem : Type 0 where
  pub vmem : ℤ
  pub rmem : ℤ
  pub vexec : ℤ
  pub vgrow : ℤ
  pub rgrow : ℤ
  pub minflt : ℤ
  pub majflt : ℤ
  pub vlibs : ℤ
  pub vdata : ℤ
  pub vstack : ℤ
  pub vlock : ℤ
  pub vswap : ℤ
  pub pmem : ℤ

pub record TaskDsk : Type 0 where
  pub rio : ℤ
  pub rsz : ℤ
  pub wio : ℤ
  pub wsz : ℤ
  pub cwsz : ℤ

pub record TaskNet : Type 0 where
  pub tcpsnd : ℤ
  pub tcpssz : ℤ
  pub tcprcv : ℤ
  pub tcprsz : ℤ
  pub udpsnd : ℤ
  pub udpssz : ℤ
  pub udprcv : ℤ
  pub udprsz : ℤ

pub record TaskGpu : Type 0 where
  pub state : ℕ
  pub nrgpus : ℤ
  pub gpulist : ℤ
  pub gpubusy : ℤ
  pub membusy : ℤ
  pub memnow : ℤ
  pub memcum : ℤ
  pub sample : ℤ

-- struct tstat
pub record Tstat : Type 0 where
  pub gen : TaskGen
  pub cpu : TaskCpu
  pub mem : TaskMem
  pub dsk : TaskDsk
  pub net : TaskNet
  pub gpu : TaskGpu

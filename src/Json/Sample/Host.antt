-- ===== src/Json/Sample/Host.antt =====
-- Processors, memory and disks in a sample: the fields of atop's structs that json.c prints.
use atophttpd.Prelude.{ℤ, Bool, List, Bytes}
use atophttpd.Printf.{Double}

pub record CpuAll : Type 0 where
  pub stime : ℤ
  pub utime : ℤ
  pub ntime : ℤ
  pub itime : ℤ
  pub wtime : ℤ
  pub irq_time : ℤ
  pub softirq_time : ℤ
  pub steal : ℤ
  pub guest : ℤ
  pub instr : ℤ
  pub cycle : ℤ

pub record PerCpu : Type 0 where
  pub stime : ℤ
  pub utime : ℤ
  pub ntime : ℤ
  pub itime : ℤ
  pub wtime : ℤ
  pub irq_time : ℤ
  pub softirq_time : ℤ
  pub steal : ℤ
  pub guest : ℤ
  pub instr : ℤ
  pub cycle : ℤ
  pub cnt : ℤ
  pub ticks : ℤ
  pub maxfreq : ℤ

pub record CpuStat : Type 0 where
  pub nrcpu : ℤ
  pub lavg1 : Double
  pub lavg5 : Double
  pub lavg15 : Double
  pub csw : ℤ
  pub devint : ℤ
  pub all : CpuAll
  pub cpu : List PerCpu

pub record MemStat : Type 0 where
  pub physmem : ℤ
  pub freemem : ℤ
  pub cachemem : ℤ
  pub buffermem : ℤ
  pub slabmem : ℤ
  pub cachedrt : ℤ
  pub slabreclaim : ℤ
  pub vmwballoon : ℤ
  pub shmem : ℤ
  pub shmrss : ℤ
  pub shmswp : ℤ
  pub pagetables : ℤ
  pub hugepagesz : ℤ
  pub tothugepage : ℤ
  pub freehugepage : ℤ
  pub tcpsock : ℤ
  pub udpsock : ℤ
  pub totswap : ℤ
  pub freeswap : ℤ
  pub swapcached : ℤ
  pub committed : ℤ
  pub commitlim : ℤ
  pub allocstall : ℤ
  pub compactstall : ℤ
  pub numamigrate : ℤ
  pub pgmigrate : ℤ
  pub pgscans : ℤ
  pub pgsteal : ℤ
  pub pgins : ℤ
  pub pgouts : ℤ
  pub swins : ℤ
  pub swouts : ℤ
  pub oomkills : ℤ

pub record Pressure : Type 0 where
  pub avg10 : Double
  pub avg60 : Double
  pub avg300 : Double
  pub total : ℤ

pub record PsiStat : Type 0 where
  pub present : Bool
  pub cpusome : Pressure
  pub memsome : Pressure
  pub memfull : Pressure
  pub iosome : Pressure
  pub iofull : Pressure

pub record PerGpu : Type 0 where
  pub busid : Bytes
  pub type : Bytes
  pub gpupercnow : ℤ
  pub mempercnow : ℤ
  pub memtotnow : ℤ
  pub memusenow : ℤ
  pub samples : ℤ
  pub gpuperccum : ℤ
  pub memperccum : ℤ
  pub memusecum : ℤ

pub record GpuStat : Type 0 where
  pub nrgpus : ℤ
  pub gpu : List PerGpu

pub record PerDsk : Type 0 where
  pub name : Bytes
  pub io_ms : ℤ
  pub nread : ℤ
  pub ndisc : ℤ
  pub nrsect : ℤ
  pub nwrite : ℤ
  pub nwsect : ℤ
  pub avque : ℤ
  pub inflight : ℤ

pub record DskStat : Type 0 where
  pub lvm : List PerDsk
  pub mdd : List PerDsk
  pub dsk : List PerDsk

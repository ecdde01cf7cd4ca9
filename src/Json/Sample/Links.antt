-- ===== src/Json/Sample/Links.antt =====
-- NFS, the network, nodes and caches in a sample, and the whole of it.
use atophttpd.Prelude.{ℤ, List, Bytes}
use atophttpd.Printf.{Double}
use atophttpd.Json.Sample.Host.{CpuStat, MemStat, PsiStat, GpuStat, DskStat}

pub record PerNfsMount : Type 0 where
  pub mountdev : Bytes
  pub bytestotread : ℤ
  pub bytestotwrite : ℤ
  pub bytesread : ℤ
  pub byteswrite : ℤ
  pub bytesdread : ℤ
  pub bytesdwrite : ℤ
  pub pagesmread : ℤ
  pub pagesmwrite : ℤ

pub record NfsClient : Type 0 where
  pub rpccnt : ℤ
  pub rpcread : ℤ
  pub rpcwrite : ℤ
  pub rpcretrans : ℤ
  pub rpcautrefresh : ℤ

pub record NfsServer : Type 0 where
  pub rpccnt : ℤ
  pub rpcread : ℤ
  pub rpcwrite : ℤ
  pub nrbytes : ℤ
  pub nwbytes : ℤ
  pub rpcbadfmt : ℤ
  pub rpcbadaut : ℤ
  pub rpcbadcln : ℤ
  pub netcnt : ℤ
  pub nettcpcnt : ℤ
  pub netudpcnt : ℤ
  pub nettcpcon : ℤ
  pub rchits : ℤ
  pub rcmiss : ℤ
  pub rcnoca : ℤ

pub record NfsStat : Type 0 where
  pub nrmounts : ℤ
  pub nfsmnt : List PerNfsMount
  pub client : NfsClient
  pub server : NfsServer

pub record TcpStat : Type 0 where
  pub in_segs : ℤ
  pub out_segs : ℤ
  pub in_errs : ℤ
  pub out_rsts : ℤ
  pub active_opens : ℤ
  pub passive_opens : ℤ
  pub retrans_segs : ℤ

pub record Udpv4Stat : Type 0 where
  pub no_ports : ℤ
  pub in_errors : ℤ
  pub in_datagrams : ℤ
  pub out_datagrams : ℤ

pub record Udpv6Stat : Type 0 where
  pub udp6_in_datagrams : ℤ
  pub udp6_out_datagrams : ℤ

pub record Ipv4Stat : Type 0 where
  pub in_receives : ℤ
  pub out_requests : ℤ
  pub in_delivers : ℤ
  pub forw_datagrams : ℤ

pub record Ipv6Stat : Type 0 where
  pub ip6_in_receives : ℤ
  pub ip6_out_requests : ℤ
  pub ip6_in_delivers : ℤ
  pub ip6_out_forw_datagrams : ℤ

pub record Icmpv4Stat : Type 0 where
  pub in_msgs : ℤ
  pub out_msgs : ℤ

pub record Icmpv6Stat : Type 0 where
  pub icmp6_in_msgs : ℤ
  pub icmp6_out_msgs : ℤ

pub record NetStat : Type 0 where
  pub tcp : TcpStat
  pub udpv4 : Udpv4Stat
  pub udpv6 : Udpv6Stat
  pub ipv4 : Ipv4Stat
  pub ipv6 : Ipv6Stat
  pub icmpv4 : Icmpv4Stat
  pub icmpv6 : Icmpv6Stat

pub record PerIntf : Type 0 where
  pub name : Bytes
  pub rpack : ℤ
  pub rbyte : ℤ
  pub rerrs : ℤ
  pub rdrop : ℤ
  pub spack : ℤ
  pub sbyte : ℤ
  pub serrs : ℤ
  pub sdrop : ℤ
  pub speed : ℤ
  pub scollis : ℤ
  pub rmultic : ℤ
  pub duplex : ℤ

pub record PerIfb : Type 0 where
  pub ibname : Bytes
  pub portnr : ℤ
  pub lanes : ℤ
  pub rate : ℤ
  pub rcvb : ℤ
  pub sndb : ℤ
  pub rcvp : ℤ
  pub sndp : ℤ

pub record IfbStat : Type 0 where
  pub nrports : ℤ
  pub ifb : List PerIfb

pub record MemPerNuma : Type 0 where
  pub frag : Double
  pub totmem : ℤ
  pub freemem : ℤ
  pub active : ℤ
  pub inactive : ℤ
  pub filepage : ℤ
  pub dirtymem : ℤ
  pub slabmem : ℤ
  pub slabreclaim : ℤ
  pub shmem : ℤ
  pub tothp : ℤ

pub record MemNuma : Type 0 where
  pub nrnuma : ℤ
  pub numa : List MemPerNuma

pub record CpuPerNuma : Type 0 where
  pub numanr : ℤ
  pub nrcpu : ℤ
  pub stime : ℤ
  pub utime : ℤ
  pub ntime : ℤ
  pub itime : ℤ
  pub wtime : ℤ
  pub irq_time : ℤ
  pub softirq_time : ℤ
  pub steal : ℤ
  pub guest : ℤ

pub record CpuNuma : Type 0 where
  pub nrnuma : ℤ
  pub numa : List CpuPerNuma

pub record PerLlc : Type 0 where
  pub id : ℤ
  pub occupancy : Double
  pub mbm_total : ℤ
  pub mbm_local : ℤ

pub record LlcStat : Type 0 where
  pub nrllcs : ℤ
  pub perllc : List PerLlc

-- struct sstat
pub record Sstat : Type 0 where
  pub cpu : CpuStat
  pub mem : MemStat
  pub psi : PsiStat
  pub gpu : GpuStat
  pub dsk : DskStat
  pub nfs : NfsStat
  pub net : NetStat
  pub intf : List PerIntf
  pub ifb : IfbStat
  pub memnuma : MemNuma
  pub cpunuma : CpuNuma
  pub llc : LlcStat

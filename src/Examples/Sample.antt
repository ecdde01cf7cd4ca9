-- ===== src/Examples/Sample.antt =====
-- A small sample for the tests of json.c.
use atophttpd.Prelude.{true, false, [], ◌∷◌, pos, codes}
use atophttpd.Printf.{Double}
use atophttpd.Json.Sample.{
  CpuAll, CpuStat, MemStat, Pressure, PsiStat, GpuStat, DskStat, NfsClient, NfsServer, NfsStat,
  TcpStat, Udpv4Stat, Udpv6Stat, Ipv4Stat, Ipv6Stat, Icmpv4Stat, Icmpv6Stat, NetStat, IfbStat,
  MemNuma, CpuNuma, LlcStat, Sstat, TaskGen, TaskCpu, TaskMem, TaskDsk, TaskNet, TaskGpu, Tstat,
}
use atophttpd.Json.Lines.{Env}

abbrev pub quarter : Double
quarter = λ n. codes "0.25"

abbrev pub small_cpuall : CpuAll
small_cpuall = record {
  stime = pos 2;
  utime = pos 3;
  ntime = pos 4;
  itime = pos 5;
  wtime = pos 6;
  irq_time = pos 7;
  softirq_time = pos 8;
  steal = pos 9;
  guest = pos 10;
  instr = pos 11;
  cycle = pos 12;
}

abbrev pub small_cpustat : CpuStat
small_cpustat = record {
  nrcpu = pos 13;
  lavg1 = quarter;
  lavg5 = quarter;
  lavg15 = quarter;
  csw = pos 14;
  devint = pos 15;
  all = small_cpuall;
  cpu = [];
}

abbrev pub small_memstat : MemStat
small_memstat = record {
  physmem = pos 16;
  freemem = pos 17;
  cachemem = pos 18;
  buffermem = pos 19;
  slabmem = pos 20;
  cachedrt = pos 21;
  slabreclaim = pos 22;
  vmwballoon = pos 23;
  shmem = pos 24;
  shmrss = pos 25;
  shmswp = pos 26;
  pagetables = pos 27;
  hugepagesz = pos 28;
  tothugepage = pos 29;
  freehugepage = pos 30;
  tcpsock = pos 31;
  udpsock = pos 32;
  totswap = pos 33;
  freeswap = pos 34;
  swapcached = pos 35;
  committed = pos 36;
  commitlim = pos 37;
  allocstall = pos 38;
  compactstall = pos 39;
  numamigrate = pos 40;
  pgmigrate = pos 1;
  pgscans = pos 2;
  pgsteal = pos 3;
  pgins = pos 4;
  pgouts = pos 5;
  swins = pos 6;
  swouts = pos 7;
  oomkills = pos 8;
}

abbrev pub small_pressure : Pressure
small_pressure = record { avg10 = quarter; avg60 = quarter; avg300 = quarter; total = pos 9 }

abbrev pub small_psistat : PsiStat
small_psistat = record {
  present = true;
  cpusome = small_pressure;
  memsome = small_pressure;
  memfull = small_pressure;
  iosome = small_pressure;
  iofull = small_pressure;
}

abbrev pub small_gpustat : GpuStat
small_gpustat = record {
  nrgpus = pos 2;
  gpu =
      (record {
        busid = codes "a";
        type = codes "a";
        gpupercnow = pos 11;
        mempercnow = pos 12;
        memtotnow = pos 13;
        memusenow = pos 14;
        samples = pos 15;
        gpuperccum = pos 16;
        memperccum = pos 17;
        memusecum = pos 18;
      }
        ∷ record {
          busid = codes "a";
          type = codes "a";
          gpupercnow = pos 19;
          mempercnow = pos 20;
          memtotnow = pos 21;
          memusenow = pos 22;
          samples = pos 23;
          gpuperccum = pos 24;
          memperccum = pos 25;
          memusecum = pos 26;
        }
        ∷ []);
}

abbrev pub small_dskstat : DskStat
small_dskstat = record { lvm = []; mdd = []; dsk = [] }

abbrev pub small_nfsclient : NfsClient
small_nfsclient = record {
  rpccnt = pos 27;
  rpcread = pos 28;
  rpcwrite = pos 29;
  rpcretrans = pos 30;
  rpcautrefresh = pos 31;
}

abbrev pub small_nfsserver : NfsServer
small_nfsserver = record {
  rpccnt = pos 32;
  rpcread = pos 33;
  rpcwrite = pos 34;
  nrbytes = pos 35;
  nwbytes = pos 36;
  rpcbadfmt = pos 37;
  rpcbadaut = pos 38;
  rpcbadcln = pos 39;
  netcnt = pos 40;
  nettcpcnt = pos 1;
  netudpcnt = pos 2;
  nettcpcon = pos 3;
  rchits = pos 4;
  rcmiss = pos 5;
  rcnoca = pos 6;
}

abbrev pub small_nfsstat : NfsStat
small_nfsstat = record {
  nrmounts = pos 7;
  nfsmnt = [];
  client = small_nfsclient;
  server = small_nfsserver;
}

abbrev pub small_tcpstat : TcpStat
small_tcpstat = record {
  in_segs = pos 8;
  out_segs = pos 9;
  in_errs = pos 10;
  out_rsts = pos 11;
  active_opens = pos 12;
  passive_opens = pos 13;
  retrans_segs = pos 14;
}

abbrev pub small_udpv4stat : Udpv4Stat
small_udpv4stat = record {
  no_ports = pos 15;
  in_errors = pos 16;
  in_datagrams = pos 17;
  out_datagrams = pos 18;
}

abbrev pub small_udpv6stat : Udpv6Stat
small_udpv6stat = record { udp6_in_datagrams = pos 19; udp6_out_datagrams = pos 20 }

abbrev pub small_ipv4stat : Ipv4Stat
small_ipv4stat = record {
  in_receives = pos 21;
  out_requests = pos 22;
  in_delivers = pos 23;
  forw_datagrams = pos 24;
}

abbrev pub small_ipv6stat : Ipv6Stat
small_ipv6stat = record {
  ip6_in_receives = pos 25;
  ip6_out_requests = pos 26;
  ip6_in_delivers = pos 27;
  ip6_out_forw_datagrams = pos 28;
}

abbrev pub small_icmpv4stat : Icmpv4Stat
small_icmpv4stat = record { in_msgs = pos 29; out_msgs = pos 30 }

abbrev pub small_icmpv6stat : Icmpv6Stat
small_icmpv6stat = record { icmp6_in_msgs = pos 31; icmp6_out_msgs = pos 32 }

abbrev pub small_netstat : NetStat
small_netstat = record {
  tcp = small_tcpstat;
  udpv4 = small_udpv4stat;
  udpv6 = small_udpv6stat;
  ipv4 = small_ipv4stat;
  ipv6 = small_ipv6stat;
  icmpv4 = small_icmpv4stat;
  icmpv6 = small_icmpv6stat;
}

abbrev pub small_ifbstat : IfbStat
small_ifbstat = record { nrports = pos 33; ifb = [] }

abbrev pub small_memnuma : MemNuma
small_memnuma = record { nrnuma = pos 34; numa = [] }

abbrev pub small_cpunuma : CpuNuma
small_cpunuma = record { nrnuma = pos 35; numa = [] }

abbrev pub small_llcstat : LlcStat
small_llcstat = record { nrllcs = pos 36; perllc = [] }

abbrev pub small_taskgen : TaskGen
small_taskgen = record {
  pid = pos 37;
  name = codes "a\"b";
  state = b'S';
  ruid = pos 38;
  rgid = pos 39;
  tgid = pos 40;
  nthr = pos 1;
  btime = pos 2;
  cmdline = codes "a";
  ppid = pos 3;
  nthrrun = pos 4;
  nthrslpi = pos 5;
  nthrslpu = pos 6;
  euid = pos 7;
  egid = pos 8;
  elaps = pos 9;
  container = codes "a";
  isproc = true;
  excode = pos 10;
}

abbrev pub small_taskcpu : TaskCpu
small_taskcpu = record {
  utime = pos 11;
  stime = pos 12;
  nice = pos 13;
  prio = pos 14;
  curcpu = pos 15;
  rundelay = pos 16;
  blkdelay = pos 17;
  sleepavg = pos 18;
}

abbrev pub small_taskmem : TaskMem
small_taskmem = record {
  vmem = pos 19;
  rmem = pos 20;
  vexec = pos 21;
  vgrow = pos 22;
  rgrow = pos 23;
  minflt = pos 24;
  majflt = pos 25;
  vlibs = pos 26;
  vdata = pos 27;
  vstack = pos 28;
  vlock = pos 29;
  vswap = pos 30;
  pmem = pos 31;
}

abbrev pub small_taskdsk : TaskDsk
small_taskdsk = record { rio = pos 32; rsz = pos 33; wio = pos 34; wsz = pos 35; cwsz = pos 36 }

abbrev pub small_tasknet : TaskNet
small_tasknet = record {
  tcpsnd = pos 37;
  tcpssz = pos 38;
  tcprcv = pos 39;
  tcprsz = pos 40;
  udpsnd = pos 1;
  udpssz = pos 2;
  udprcv = pos 3;
  udprsz = pos 4;
}

abbrev pub small_taskgpu : TaskGpu
small_taskgpu = record {
  state = b'S';
  nrgpus = pos 5;
  gpulist = pos 6;
  gpubusy = pos 7;
  membusy = pos 8;
  memnow = pos 9;
  memcum = pos 10;
  sample = pos 11;
}

abbrev pub small_sstat : Sstat
small_sstat = record {
  cpu = small_cpustat;
  mem = small_memstat;
  psi = small_psistat;
  gpu = small_gpustat;
  dsk = small_dskstat;
  nfs = small_nfsstat;
  net = small_netstat;
  intf = [];
  ifb = small_ifbstat;
  memnuma = small_memnuma;
  cpunuma = small_cpunuma;
  llc = small_llcstat;
}

abbrev pub small_task : Tstat
small_task = record {
  gen = small_taskgen;
  cpu = small_taskcpu;
  mem = small_taskmem;
  dsk = small_taskdsk;
  net = small_tasknet;
  gpu = small_taskgpu;
}

abbrev pub small_env : Env
small_env = record {
  hertz = 100;
  pagesize = 4096;
  nodename = codes "host";
  hidecmdline = false;
  times_100 = λ d. d;
}

-- ===== src/Lib.antt =====
-- A verification library for syncctl, which replicates a GitLab site to secondaries and promotes
-- one of them when the primary is lost.
--
-- The parts and how they interact:
--   * internal/config reads and checks the configuration. Its structs are the records of
--     Config/Types, `validate` is Config/Validate, with its errors as a list of values,
--     `validatePaths` is Config/Paths, the walk over secrets and the references to environment
--     variables are Config/Secrets, and the connection strings for libpq are Config/Dsn, held to
--     the reader of libpq in Dsn/Conninfo.
--   * internal/sshexec parses the hosts of the configuration and builds the command lines of
--     `ssh`: Ssh (`ParseEndpoint`, `GitURL`) and Ssh/Command (`Command`, `SSHString`). Ssh/Argv says
--     how `ssh` reads its arguments, and Ssh/Quoting what a shell makes of `SSHString`.
--   * internal/shellquote quotes what goes into remote commands: Shell, held to the words of a
--     POSIX shell in Shell/Posix.
--   * internal/readonly and internal/dbkey run commands over SSH: Readonly and Dbkey, written
--     against the `Runner` of sshexec.go.
--   * internal/failover uses all of these: Failover (the controller and its state), Failover/Health
--     (health checks), Targets (which secondary), Steps and Promotion (`Promote`), Monitor (the loop
--     of `Run`) and Adoption (`AdoptAsSecondary`). Ran, Performs, Checks and Keeps hold the rules by
--     which a sequence of steps is proved from its steps.
--   * internal/projectpath is ProjectPath. internal/reconciler/retry.go is Reconciler/Retry, and
--     internal/reconciler/runner.go is Reconciler/Sweep.
--   * internal/webhook is Webhook: Webhook/Handler (`NewServer`, `handleWebhook`, which uses
--     ProjectPath) and Webhook/Debounce (`TriggerManager`), whose calls run side by side and are the
--     steps of a relation in any order: Owner, Entries and Drain are about every state that they
--     lead to.
--   * internal/reconciler/consistency compares the row counts of both sites and checks a sample of the
--     repositories: Consistency, with Sample for the walk and the draw.
--   * internal/reconciler/gitfetch keeps the repositories of a secondary up to date: Gitfetch (Paths
--     for where a repository lies, Fetch for the listing, one command and the sweep over all, Project
--     for the fetch of one project). Resolve says where a path leads.
--     Base/FilePaths has the names of `path/filepath` that it uses.
--   * internal/reconciler/registry compares two container registries: Registry (Runes and Challenge
--     for the header, Auth and Token for the exchange of a token, Compare for the listings and the
--     verdict, on the sets of Sets).
--   * internal/reconciler/postgres is Postgres: the pools in Pools and the lag of the standbys in Lag.
--   * internal/doctor checks both sites before a replication: Doctor (Database, Hosts, Report), with
--     Passing and HostReady for what a check that passed says.
--   * internal/pgsetup makes a standby: Pgsetup (Setup for `Run`, AppName for the file that it edits,
--     Redact for `RedactDSN`).
--   * internal/reconciler/fsstorage and gitrsync copy directories with rsync: Rsync, with Paths for
--     the one and Repositories for the other.
--   * internal/reconciler/objectstorage compares two buckets: ObjectStorage, on the `Retry` of
--     Reconciler/Retry.
--   * internal/reconciler/apivalidator compares the counts that the API of both sites gives:
--     ApiValidator, with the redirects that the client follows.
--   * internal/sla builds the report on service levels from the metrics: Sla.
--
-- A Go string is the list of its bytes, and an `int` that is not near its bounds an integer; the
-- parser of ports and the delays of `Retry` keep the bounds of 64 bits. Code that asks the outside
-- is an action on a log of requests (Effects): a `World` answers each poll of a URL and each remote
-- command by any rule, which may depend on all requests before. A theorem for every world hence
-- holds for every failure of the network and the hosts. `State` has the flag and the counter of the
-- controller, which are atomics in the source; the loop of `Run` is the only one that writes the
-- counter, so that a round is one step. The matches of the regular expressions are written out as
-- functions.
--
-- Loops are structural recursion: on the list of steps, URLs or secondaries, on the attempts that
-- are left in `Retry`, and on the number of rounds in `Run`, whose end is the cancelled context. The
-- fuel is that of `decimal`, the number plus one, which is more than its digits, and the length of
-- the text for `trim_left`, `replace_refs` and `redact`, whose rounds take a byte at least. A call of
-- `client.Do` in ApiValidator sends ten requests at most, the limit of net/http for redirects.
--
-- A parameter stands for `url.Parse` in Config/Validate, of which the scheme and the host are used,
-- and others for the function that `Retry` calls, for the environment, and for SHA-256 and the JSON
-- decoder in Webhook/Handler. Gitfetch takes SHA-256 too, the rows of the database and the runs of
-- git; Registry the answers of both servers, `url.Parse`, `strings.ToLower` and the JSON decoders;
-- Consistency the random numbers and the share of a sample; Postgres, Doctor and Pgsetup the answers
-- of the databases and of `pg_basebackup`; Rsync what `rsync` prints; and ObjectStorage the client of
-- the object storage and the pages that it lists; ApiValidator takes the answers of both sites.
-- A sample of a metric in Sla is a whole number of billionths.
--
-- Not modelled: printing, logging and metrics, and with them the warnings of the configuration;
-- decoding YAML; the clock, but for the delays of `Retry`; the scrape of the metrics,
-- initcmd, runbook and the command line.
pub mod ApiValidator
pub mod Base
pub mod Shell
pub mod Ssh
mod Tests
pub mod Config
pub mod Effects
pub mod Readonly
pub mod Dbkey
pub mod Doctor
pub mod Failover
pub mod Gitfetch
pub mod Postgres
pub mod Sla
pub mod ObjectStorage
pub mod Pgsetup
pub mod ProjectPath
pub mod Reconciler
pub mod Registry
pub mod Rsync
pub mod Webhook
pub mod Consistency

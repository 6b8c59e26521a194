-- ===== src/Lib.antt =====
-- CF Dev: a local Cloud Foundry in a virtual machine, as a plugin of the cf command line.
--
-- The parts, and how they interact. `cf dev start` checks the host, stops what is running, fetches
-- and unpacks the assets, starts the network and the virtual machine, waits for it and deploys BOSH,
-- Cloud Foundry and the services; `cf dev stop` takes all that down; `cf dev provision` repeats the
-- deployments. The asset cache downloads what the catalog lists. The analytics client reports events
-- if the user has agreed, which the toggle remembers; the analytics daemon, started where they are
-- on, polls the cloud controller and reports what happened there. On macOS a privileged helper,
-- cfdevd, binds low ports and sets loopback aliases for the others. Errors carry a text that may be
-- reported.
--
--   Errors            errors/errors.go
--   Resource          resource/catalog.go: Item, Lookup, Remove
--   Resource/Progress resource/progress/progress.go: the bar, with wrap-around at 64 bits
--   Resource/Retry    resource/retry/retry.go: Retry, WrapAsRetryable, Retryable
--   Resource/Storage  resource/cache.go: the cache directory, MD5, checksumMatches
--   Resource/Cache    resource/cache.go: Sync, download, downloadHTTP, copyFile
--   Metadata          metadata/reader.go and the service record of provision/services.go
--   Provision         provision/services.go: WhiteListServices, GetWhiteListedService
--   Toggle            cfanalytics/toggle/toggle.go
--   Analytics         cfanalytics/cfanalytics.go: Event, PromptOptInIfNeeded
--   Commands/Stop, Commands/Provision, Commands/Start
--                     cmd/stop/stop.go, cmd/provision/provision.go, cmd/start/start.go
--   Commands/Telemetry, Commands/DeployService
--                     cmd/telemetry/telemetry.go, cmd/deploy-service/deploy_service.go
--   Analyticsd        analyticsd/cloud_controller/client.go: Fetch, FetchLatestTime, FetchEvents
--   Analyticsd/Handlers  analyticsd/command and analyticsd/config: New and each HandleResponse
--   Analyticsd/Polling   analyticsd/daemon/daemon.go: Start, do, saveLatestTime
--   Commands/Version, Commands/Download, Commands/BoshEnv
--                     cmd/version/version.go, cmd/download and cmd/catalog, cmd/bosh/bosh.go
--   Commands/Plugin   main.go: Run
--   Configuration     config/config.go; Configuration/Semver is semver/semver.go
--   Env               env/env.go: BuildProxyConfig, CreateDirs; main.go: the proxy variable
--   Env/State         env/env.go: SetupState, over Archive
--   Archive           resource/tar_util.go: Untar
--   Daemons           daemon/spec.go and the interface DaemonRunner; Daemons/Contract is what it
--                     promises, Daemons/Launchd and Daemons/Winsw are daemon/launchd_darwin.go and
--                     daemon/winsw_windows.go, Daemons/Watch the Watch loops, Daemons/AnalyticsD
--                     cfanalytics/analyticsd.go
--   Hypervisor        hypervisor/linuxkit.go, hypervisor/safe_kill_darwin.go, hypervisor/hyperv.go
--   Network           network/vpnkit.go and its two systems, ip_aliaser_windows.go, cfdevd.go
--   Host              host/host_darwin.go, host/host_windows.go
--   Bosh, Ssh         bosh/config.go, bosh/bosh.go, shell/bosh_envs.go, ssh/ssh.go
--   Provision/Deploying  provision/bosh.go, cloudfoundry.go, progress.go, services.go: Deploy...
--   Cfdevd            cfdevd/handshake.go and the commands of cfdevd/cmd as bytes
--   Cfdevd/Serving    cfdevd/cmd, cfdevd/networkd, and one connection of cfdevd/main.go
--   Cfdevd/Serving/Client  cfdevd/client/client.go
--   Cfdevd/Install, Cfdevd/TimeSync  cfdevd/install.go, and syncTime of cfdevd/main.go
--   System            the operating system: commands, files, sockets and time
--   Runtime           the interfaces that the commands call, and the order of calls
--   Common            library names, lists, texts, integers, maps and the variables of a process
--
-- State. A command is a function from the history of its calls, the latest first, to its result and
-- the longer history; what a call answers is given by any `World`, a function of the call and of the
-- history. The parts below these interfaces act on the operating system in the same way: their
-- history is one of operations, and a `System` of System.antt is any function that answers them.
-- Where a theorem needs more of launchctl or winsw.exe, that is a record of laws, which an example
-- fills. The cache works on a disk of files, a progress bar and a clock that counts the answers
-- of a `System` of its own: the server, the disk's errors and the MD5 function. The toggle is a record and the
-- document in its file. Wrap-around of 64-bit numbers is written out where the code multiplies or
-- adds; a Go `int` is an integer. Texts are compared by ASCII characters.
--
-- Fuel and bounds. `retry` runs on fuel; one unit for each retry is enough, and ten are given for
-- the ten retries of the cache. `fetch_pages` runs on a number of pages, since the cloud controller
-- may name one more for ever: as many as there are is enough. `wait_for_vm` counts its 120 attempts
-- down, `connect` the five retries of vpnkit. A wait against a timer counts the pauses that fit into
-- its time. `watch` runs on a number of polls, since a daemon may run for ever. All else is
-- structural.
--
-- Not modelled: Tar, VMProgress of bosh/bosh.go, which only tests call; the wiring of main and of
-- cmd/root_*.go; the sockets of launchd; the decoding of JSON, YAML and archives and the encoding of
-- JSON and XML, which are parameters; the flags of cobra, and log lines.
-- `print_splash` is for a message that is a template; `template.Must` panics on any other.
-- In `start`, the goroutine that ends the process is the separate run `interrupt`.
pub mod Analytics
pub mod Analyticsd
pub mod Archive
pub mod Bosh
pub mod Cfdevd
pub mod Commands
pub mod Common
pub mod Configuration
pub mod Daemons
pub mod Env
pub mod Errors
pub mod Host
pub mod Hypervisor
pub mod Metadata
pub mod Network
pub mod Provision
pub mod Resource
pub mod Runtime
pub mod Ssh
pub mod System
pub mod Toggle

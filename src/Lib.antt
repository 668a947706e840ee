-- ===== src/Lib.antt =====
-- The libvirt operator: a Kubernetes operator that manages the domains, volumes, pools, networks and
-- PCI devices of libvirt hosts, written in Go.
--
-- A custom resource (api/v1alpha1) is reconciled by its controller (internal/controller): it resolves
-- the resource's references, takes a session with the host from the store of hosts (internal/store),
-- reads the host by a probe (internal/probe) or changes it by an action (internal/action) through the
-- interface host.Client (internal/host), and reports in the conditions of the resource.
--
-- Which file models which part:
--   Prelude, Prelude/*     names of the libraries, tests on numbers, lists and string-keyed maps
--   Outcome                errors, and how a Go function ends: a value, an error, a panic, or no end
--                          within the rounds given to a loop
--   Libvirt, Host          the data of go-libvirt and libvirtxml, and host.Client as a record of
--                          functions over a host's state (internal/host/host.go); the dialers that its
--                          clients are made of in Host/Dialer
--   Host/Fake/*            the fake host of the tests, as an instance of the interface: its state in State,
--                          pools and volumes in Storage, domains in Domains, the whole in Connection
--                          (internal/host/fake)
--   Host/Fake/Lifecycle    a domain on that host from its definition to its removal
--   Host/Monad             a run: it changes the host's state, and logs its changes in order
--   Util/Bytes, Labels     ConvertToBytes and SetLabel (internal/util/util.go; Marshal stands in
--                          Controller/CloudInit/Image)
--   Api, Api/*             conditions, labels and kinds (api/v1alpha1); in Validation the rules on auths
--                          and on secure boot, which the API server holds objects to
--   Action/Domain/*        DomainAction (internal/action/domain.go): State, Create, Start and Delete in
--                          State, the setters in Setup, Disk in Disk with its loop over the backing
--                          stores in Disk/Chain, the search for a free disk name in TargetDev, Shutdown in Shutdown
--   Action/Volume/*        VolumeAction (internal/action/volume.go): RemoteSource in Source, with the
--                          checksum as a text in Source/Checksum, the resizes in Resize, the disk of a
--                          live resize in Resize/Disk, the rest in State
--   Probe, Probe/Totals    the four probes (internal/probe), and their loops as sums
--   Store/Host             HostStore and HostEntry.Session (internal/store/host.go)
--   Store/Monitor/*        Session, monitor and gracefulDisconnect of one entry, as interleaved steps,
--                          at which the connection may break
--   Store/Auth/*           AuthStore (internal/store/auth.go)
--   Controller/Base        the calls of the Kubernetes API, setStatusCondition, finalizers, labels
--   Controller/Conditions  what apimachinery documents of conditions, and a server that accepts
--   Controller/Probed/*    what the reconcilers of pools, networks and PCI devices have in common: the
--                          guarded deletion in Release, what a probe leaves in the status in Report
--   Controller/Pool, Network, PciDevice   these reconcilers (pool.go, network.go, pcidevice.go)
--   Controller/Volume/*    the reconciler of volumes (volume.go)
--   Controller/Domain/*    the reconciler of domains (domain.go), with its kind in Api/Domain
--   Controller/Auth/*      the reconciler of auths (auth.go)
--   Controller/Host/*      the reconciler of hosts (host.go), with the options of its client in
--                          Controller/Dialer
--   Controller/CloudInit/* the reconciler of cloud-inits (cloudinit.go), with the image in Image
--   Controller/Watch/*     the requests that a change of a secret or of an auth makes (predicate.go, and
--                          SetupWithManager of auth.go and host.go)
--   Webhook, Webhook/*     the validators, with the names in Names, and the defaulters in Defaults
--                          (internal/webhook, api/resource)
--   Version, Version/*     the build information and the version command (internal/version,
--                          internal/cmd/version.go)
--   Cmd, Cmd/*             the flags and the set-up of the operator (internal/cmd/root.go), as steps that
--                          a platform lets succeed or fail
--   Tests/*                a small host and the theorems at it
--
-- The host's state is a parameter, a type with the functions of host.Client on it; so are the
-- Kubernetes API (Server), the helpers of apimachinery and controller-runtime (Machinery), safecast
-- (Casts), the XML codec and the HTTP client. What a theorem needs of an answer is a hypothesis of
-- that theorem; the only laws are those of Controller/Conditions, which apimachinery documents of
-- SetStatusCondition, and theorems that use them take them as a parameter. Numbers are natural;
-- uint64 arithmetic is reduced modulo 2 ^ 64 where the source computes. A Go map from strings is an
-- association list, and nil is none; where range visits one, the order is a parameter (Iso). A pointer is an Option, and dereferencing nil is a panic.
--
-- Loops: the search for a disk name runs on one round more than there are disks; the loop over
-- the chain of backing stores on a number of rounds that the caller gives, and the chain's length is
-- enough; Shutdown's loop runs on the retries that are left, 30 at first.
--
-- Simplified: an XML description has the elements that the source reads or writes, and a default
-- domain its distinguishing values; a session has the id 0 during a run, since the controllers
-- never look at it, and its end is not a step of the run. A run sees one answer of the API server
-- to each Get and List. A client of the store of hosts stands by the dialer that it was made of and
-- by what it answers to IsConnected. Where the controllers use the store of hosts, Register and Deregister are
-- single steps; the goroutine of an entry runs in Store/Monitor only. Errors of the file system
-- that the source only logs are left out. A generation and a size of files in memory are natural
-- numbers without a bound.
--
-- Not modelled: generated code, which decides nothing; SetupWithManager but for the handlers of its
-- watches, since it only registers the controllers; cobra's reading of the flags; the YAML encoder,
-- the ISO 9660 library and the dialers, which are not in the repository.
pub mod Prelude
pub mod Outcome
pub mod Util
pub mod Libvirt
pub mod Host
pub mod Action
pub mod Api
pub mod Probe
pub mod Store
pub mod Controller
pub mod Webhook
pub mod Version
pub mod Cmd
pub mod Tests

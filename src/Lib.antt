-- ===== src/Lib.antt =====
-- HackerOS Builder: a model of the program, and the theorems about it.
--
-- The program (Go) reads the project file config.hk, asks deb-ostree to build a system image, and
-- pushes it to a registry or makes an ISO of it. Its core is the format .hk.
--
-- - Hk: internal/hk, the format .hk. OrderedMap (orderedmap.go), Errors (errors.go), Value
--   (value.go), Path (path.go), LexValue (lexvalue.go), Config (config.go), Insert and Parser
--   (parser.go), Literal and Serialize (serialize.go). The source shares maps by pointer, so a
--   map is an address in the store of Hk/Store, which each operation takes and returns.
-- - Hk/Load, Interpolate, Builder: LoadFile (parser.go), the references of interpolate.go, and
--   builder.go. The resolver recurses over maps and over chains of references with fuel: the number
--   of maps, and the number of references that a text can lead to, are enough.
-- - Config: internal/config/config.go, Load and the checks of the project file.
-- - Hkgen: internal/hkgen/debostree_config.go, the configuration of deb-ostree in an image.
-- - Liveparse: internal/liveparse/project.go, the directories of a project, given as listings.
-- - Download: internal/download/debostree.go, the binary of deb-ostree and its checksum; what the
--   network answers and the SHA-256 of a text are parameters.
-- - Preflight: internal/preflight/check.go, the tools that a command needs.
-- - Buildflow: internal/buildflow (cloud.go, iso.go, all.go). A flow is the list of the steps that
--   it takes outside with its outcome; a Host says what the system answers and which steps succeed.
--   The builds of rootfs, ociimage and isobuild are single steps of it.
-- - System: what the program asks of the system. A program is a tree of calls (Io), with a branch for
--   each answer that the call can have. What is proved of it holds for all answers: Always, of each
--   call; Ends, of what the calls have left behind at the end (Given, for a system
--   whose answers are fixed); Runs, of the calls of one kind in
--   their order; FailsOnly, of a failure without a failed call. A failure is the list of the texts
--   that wrap it. Paths are those of filepath, cleaned by System/Components.
-- - Sandbox: internal/sandbox/sandbox.go, the script that chroot is run by, and its quoting.
-- - Toolchain: internal/toolchain/toolchain.go, the tools that a build fetches. internal/toolchain.go
--   is the same file.
-- - Rootfs: internal/rootfs (builder.go, debostree_deps.go), a root file system by debootstrap.
-- - Ociimage: internal/ociimage, Push (push.go) and Pull (pull.go), a rootfs as an image of one layer
--   and the unpacking of layers. An archive is the list of its entries. Ociimage/Disk says what calls
--   do to files and links, Ociimage/Layer what they write to an archive.
-- - Isobuild: internal/isobuild, the ISO (builder.go) and the graphical installer (installer.go, with
--   the texts in Isobuild/Calamares). Go walks a map in any order, which is the parameter Arrange.
-- - Buildlock: internal/buildlock/lock.go, the lock of a working directory.
-- - Util: internal/util, what is reported of a process, and colours.
-- - Cli: main.go, the arguments, the command and the dispatch; Cli/Clean is the command clean.
-- - Text: the functions of Go's packages strings, strconv and unicode/utf8 that the source calls,
--   on lists of bytes. Prelude: lists, Boolean tests, equality of texts.
-- - Tests: runs at concrete inputs, and the theorems applied to them.
--
-- A Go error is an `err`, and an index out of range a `panic`. The arithmetic of float64 is a
-- parameter (Floats in Hk/Value). The serializer recurses over the maps with fuel, of which the
-- number of maps is enough. strings.ToLower and the white space of Unicode
-- are those of Text/Search and Text/Space; an index into an array is a signed
-- word of 64 bits. A slice of a key line, of a header, of an array or of what stands in quotation
-- marks is a panic where its bounds are out of range.
--
-- Not modelled: the texts of most error messages, and the log; what the system does on a call beyond
-- its answer (links in the directories above a path, the shell of the sandbox, the commands that
-- are run, a second process that wants the lock, registries, gzip and tar); internal/httpclient,
-- settings of a client; floating point.
pub mod Prelude
pub mod Text
pub mod Hk
pub mod Liveparse
pub mod Preflight
pub mod Config
pub mod Buildflow
pub mod Hkgen
pub mod Cli
pub mod Download
pub mod Tests
pub mod System
pub mod Sandbox
pub mod Toolchain
pub mod Rootfs
pub mod Isobuild
pub mod Ociimage
pub mod Buildlock
pub mod Util

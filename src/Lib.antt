-- ===== src/Lib.antt =====
-- Verification of tinit, the init daemon and service manager of this repository.
--
-- The program. The daemon loads a configuration for each service, starts the services of a target,
-- supervises their processes, serves the requests of the control tool and stops all services before
-- the system goes down. A service is STOPPED, STARTING, READY or STOPPING. It waits for the services
-- it depends on by notifications: when one becomes ready or stopped, its observers are called and may
-- change state in turn. Signals, timers and requests are handled one at a time by one thread.
--
-- The files, with the sources they model:
--   Conf        conf.h, strarr.h: the configuration of a service as the daemon reads it; Dups is
--               conf_strarr_has_dups of conf.c, Settings its parsers of single settings, and Load its
--               loaders up to conf_load_file: Load/Fields has one for each field, Load/Root the whole file
--   Common      common.c: Names has the checks of service names, Strings the C string functions
--   Sys         the file system and library functions called, and paths set by the build
--   Strarr      strarr.c: arrays of slots for strings, which the other parts take for lists
--   World       svc.h, notif.h, repo.h: the memory, the repository and the calls to the system
--   Svc         svc.c: Spawn has svc_spawn, svc_kill, svc_may_start and svc_may_stop; Cascade the
--               start and stop sequences and svc_mark_ready and svc_mark_stopped, which call each
--               other through the observers; Events svc_start, svc_stop, svc_reload and the handlers
--               of events and timers; Exec svc_exec, the child of a fork up to execve(2); Register
--               svc_init and the registration of observers, with notif.c. Evolve, React and Serviced
--               say what a run may change; Spawn/Gate and Events/Waits are about waiting for other
--               services, Register/Reach and Register/Rank about its cycles, and Events/Sequence and
--               Events/Ending about whole start and stop sequences
--   Repo        repo.c: the lookups by name, path and process; Load is tinit_repo_load, Load/Rounds and
--               Load/Wiring are about its second part, which registers the services with each other
--   Sigchan     sigchan.c: reaping children and dispatching signals, before and during shutdown
--   Target      target.c: Folder reads a target's directory, Switch starts and switches targets;
--               tinit_target_stop and the loops are in Target itself
--   Proto       proto.h, and the parts of srv.c and lib.c that build and read messages; Step is the
--               client's way through the statuses of a reply
--   Srv         srv.c: the requests of the control tool; Queue is the interface of libutils' queue of
--               buffers, Transport the dispatch of the socket, which receives into it and sends from it
--   Mnt         mnt.c: unmounting all file systems; Mnt/Umount is about which, and in which order, and
--               Mnt/Mount is mnt_mount_all
--   Init        init.c and sys.c: the standard descriptors; Init/Args is the command line, Init/Loop
--               tinit_loop with the events that upoll dispatches, Init/Main main and tinit_shutdown
--   Client      lib.c: a whole call of the client, over a link for the socket; Client/Chat joins it with the
--               daemon, and Client/Tool is svctl.c with the loop over the statuses
--   Prelude     shared names, tests on numbers, lists, results that may fail, signed numbers
--   Examples    witnesses and test data: a repository of two services
--
-- The model. A `struct svc *` is a number, and `World.svc` the memory behind it; the pointers to
-- handlers are the two sides, on and off. A handler takes a world and returns a `Result`: a world,
-- or the fault that an assertion of the source failed, that an array was left, or that fuel ran
-- out. Every call to the system is recorded in `World.log`, and `Env` answers it depending on all
-- calls before. `Env` has two laws, which the source asserts: vfork(2) does not fail with ENOSYS, and
-- kill(2) fails with ESRCH at most, since init runs as the super-user and sends signals that its
-- configuration has let through. Of the timers, nothing is assumed. Where this file says that no
-- assertion fails, it is under these laws. Two more interfaces have laws: `Sys`, that a path which
-- upath_validate_path accepts is not empty and shorter than the bound, and `LibConfig`, that the
-- settings of a group have names.
-- libconfig's settings are an abstract type that the loaders look at through its functions,
-- `LibConfig`; a variable that the source reads before it is written is the fault `unset`. The
-- services are numbered as they are created. Children reported by waitid(2), entries of the signal
-- descriptor, entries of a directory, datagrams received and the events that the main loop
-- dispatches are lists; a run whose events have ended waits for more. Numbers of 16 and 32 bits and `size_t` wrap
-- around where the source relies on it; messages are little-endian.
--
-- Fuel. svc_mark_ready and svc_mark_stopped recurse through the observers without a bound of their
-- own. The model gives them as much fuel as the repository has services: each nested call finds one
-- less that is STARTING or STOPPING. The loop of tinit_target_init_iter has as much as the directory
-- has entries, each turn using up one at least. The search for a service among those that another one
-- waits for has as much as there are services, which is enough as long as none waits for itself. The
-- loop over the replies has one turn more than replies wait: a turn that goes on takes one away. The
-- control tool's loop over the statuses has one more than the reply has bytes.
--
-- The word "sound" below is `IsSound` of Svc/Evolve: the handlers installed and the timer's are those
-- of each service's state, a stopped service has no process, observers are in the repository, and every
-- service of the repository has commands of one argument or more, and polls of one slot or more. A
-- loaded repository is sound: see Repo/Load/Loaded.
--
-- A "wired" world is `Wired` of Svc/Register/Wired: the observers and the sources of all services are the
-- same registrations, among services of the repository, and no service waits for itself.
--
-- The loops over a poll and over a target's table read one element behind the last and drop it: of a
-- full poll or table, outside of its memory. `poll_reads` of Svc/Spawn has these reads for a poll; the
-- functions that loop do not, and the bounds shown are those of writes.
--
-- Not modelled: unregistering and destroying services, which only the debugging build does (svc.c, notif.c, repo.c); conf_print and conf_fini of conf.c; the
-- sockets of libutils, with the set-up of the server's and the client's (srv.c, lib.c), and upoll;
-- the signal masks and the killing of remaining processes (init.c); log.c, which is output, and the
-- layout of the table that svctl.c shows. Failures of malloc(3) and messages for the operator are
-- left out throughout.
pub mod Prelude
pub mod Conf
pub mod Common
pub mod Sys
pub mod Strarr
pub mod Mnt
pub mod Init
pub mod Client
pub mod World
pub mod Svc
pub mod Repo
pub mod Sigchan
pub mod Target
pub mod Proto
pub mod Srv
pub mod Examples

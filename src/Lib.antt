-- ===== src/Lib.antt =====
-- Verification library of Supercluster: its Python programs, the worker script of the parallel
-- catchup, and the loop of that mission's driver.
--
-- Parts and files. Paths are from the repository's root. Bench is
-- src/scripts/parse_benchmark_results.py, which turns the iperf3 reports of a network benchmark
-- into metrics of each node. Bench/Parse is parse_iperf3_json and extract_rtt_from_streams;
-- Bench/Initiate is should_node_initiate_test and the choice of tested peers; Bench/Split cuts the
-- output of a pod into reports; Bench/Aggregate is aggregate_bidirectional_results with
-- update_rtt_metrics, finalize_node_metrics and validate_network_balance; Bench/Report is the
-- conversion to results in main and the figures of format_benchmark_results, Bench/Report/Page its
-- text; Bench/Names finds the name of a pod's node in its log; Bench/Main is main. The parts are
-- composed as in the source: main names the pods, the aggregation cuts the output of each pod,
-- parses the reports, matches them in order to the peers that the node tests, and adds each test
-- to the metrics of its two nodes.
-- Monitor is src/MissionParallelCatchup/job_monitor.py, which watches the queues of a parallel
-- catchup. Monitor/Settings reads the environment; Monitor/Requeue is requeue_job and
-- retry_jobs_in_progress, Monitor/Network ping_worker and pod_exists, Monitor/Surplus the marking
-- of surplus workers (phase 2b), Monitor/Pass one pass of update_status_and_metrics: the phases
-- that lead to the status, which call the parts before, in Monitor/Pass/Board what is published,
-- in Monitor/Pass/Metrics the entries that are taken over, and in Monitor/Pass/Loop the loop of
-- passes. The other files of Monitor/Pass are proofs: Keeps has the rules for an invariant of a
-- pass, which Kept, Bounded, Sealed and Monitor/Jobs fill for four of them. Monitor/Http is the
-- server's do_GET, with the way in which src/FSLibrary/MissionHistoryPubnetParallelCatchupV2.fs
-- reads the status. Monitor/Worker has the steps that workers take at the same queues, which are
-- the environment of the monitor; Monitor/Jobs is a machine that counts the copies of one job,
-- with which the loop of passes is compared.
-- Catchup is src/MissionParallelCatchup/parallel_catchup_helm/files/worker.sh, the program of a
-- worker pod: a round asks whether the pod retires, claims a job, checks its key, and closes the
-- job with up to 30 attempts. Catchup/Served, Marked, Closed, Alone and Forgotten are its proofs;
-- Served compares the program with the steps in Monitor/Worker, and Forgotten puts it before a
-- pass of the monitor.
-- Driver is the loop of src/FSLibrary/MissionHistoryPubnetParallelCatchupV2.fs, which asks the
-- monitor for the status, retires workers and ends the mission; Driver/Verdicts and
-- Driver/Requests are its proofs.
-- Eks is scripts/eks-init.py, the set-up of a cluster: Eks/World has the machine, the user's input
-- and the log of commands, with run, run_capture_output and the prompts; Eks/Cluster what is read
-- out of the answers of aws, kubectl and dig (node_is_in_cluster, the loops of get_node_ips);
-- Eks/Script the functions that run commands, and main.
-- Python has what the scripts take from Python: numbers, digits, JSON values with what the
-- operators do on them, replace and split. Prelude has the shared names, Python's texts as lists
-- of code points, and Python's dict and set.
--
-- What is a parameter. Bench takes Python's floating point as a record Number of operations
-- without laws, and json.loads as a function from texts to JSON values, where none is
-- JSONDecodeError. An integer and a float are one kind of number there. How Python writes a
-- number, what its regular expressions take for white space, the time, and whether the file of
-- results can be written are parameters of main, and so is json.loads on the input, which has the
-- shape that the mission writes. Monitor takes the Redis server as a record Redis: its commands,
-- with what their documentation says of the keys, seen through a view of the lists, sets and
-- owners; Monitor/Redis/Memory shows that this can be met. The network is a record Network:
-- whether the request or the lookup with a number succeeds, and the order in which Python runs
-- through a set. Python's float, which reads the durations, is a function from texts; the clock is
-- a list of readings, three for each pass; json.dumps and generate_latest are functions to texts.
-- Catchup takes, for each round, the results of stellar-core, of ls and of the pipeline on the
-- log, the clock, and the exit code and output of redis-cli for a command that has failed, which
-- may be any. Driver takes what Kubernetes answers to each request to delete a pod, and the status
-- as the values that are read of it. Eks takes the machine as a record Machine: the exit code or
-- the output of each external command, the keys that glob finds, and Python's json.loads, int,
-- lower and str; its printing is left out.
--
-- State and errors. The dict that parse_iperf3_json fills is a record, and an exception keeps what
-- has been filled. An exception that nothing catches ends the aggregation, or the report, with
-- none; a division by a number of peers raises where this number is 0. A call of the monitor is an
-- action on a World: the store, and a list of slots that say, for each command, what the workers
-- do before it, how often it was carried out and sent again because its answer was lost, with what
-- the workers do in between, and whether the last attempt is answered, refused, or carried out
-- with its answer lost. So a theorem for all slots is one for all interleavings of whole commands
-- and, where it does not ask that all commands be answered the first time, for all failures and
-- all repeated commands. The redis-cli of the worker sends a command once. The loop of
-- retry_jobs_in_progress has a bound on its rounds; a bound above the number of jobs in progress
-- and of the steps that the workers take is enough, as a theorem on the loop of passes shows. A
-- pass has the same bound as a parameter. The loop of passes, which has no end of its own, runs as
-- often as there are readings of the clock; the loop of a worker runs for the rounds that are
-- given, and the loop of the driver for the answers that are given. The loop of
-- test_dns_propagation has no end of its own either, and has a bound; a theorem gives the round in
-- which it ends.
--
-- Not modelled: log lines and the printing of the set-up script; the start of the server and of
-- the threads, and the configuration of the log; the checks of worker.sh on its environment;
-- quotes and line ends in what the worker sends to redis-cli; a request between the two steps in
-- which a pass publishes its status and takes the entries over; the shell and chart files; the F#
-- and C# code but for the loop of the driver and its reading of the status; of the driver, the
-- installation by helm, the collection of logs and the clean-up.
pub mod Prelude
pub mod Python
pub mod Bench
pub mod Monitor
pub mod Catchup
pub mod Driver
pub mod Eks

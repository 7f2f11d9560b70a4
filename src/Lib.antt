-- ===== src/Lib.antt =====
-- SADICA: the model of a distributed operating system (memory server, kernel, CPU, filesystem,
-- console) and the theorems about its parts. A console sends a program to the kernel; the kernel
-- asks the memory server for its pages, schedules it on a CPU, and serves its heap; kernel and CPU
-- read and write pages by messages to the memory server.
--
-- Files, and the code they model (paths from the root of the repository):
-- - Base: Booleans, lists, options and numbers that all parts use.
-- - Memoria: the memory server, Segundo tp/memoria/src. Its state, `t_estructurasMemoria` of
--   Segundo tp/rocketLibrary/structs/structs.h, is the record EstructurasMemoria.
--   + Memoria/Tabla: the inverted page table (estructurasAdministrativas.c, and
--     buscarIndiceEnPaginaDeFrames of gestionDeMemoria.c). escribirEnTablaDeFrame is two functions,
--     one for each value of its flag.
--     Filas: the rows that it changes.
--   + Memoria/Cache: the page cache of gestionDeMemoria.c, with its evictions and counters.
--   + Memoria/Datos: leerDato and escribirDato of gestionDeMemoria.c.
--   + Memoria/Paginas: the pages of a process, and crearEstructuras of memoria.c.
--   + Memoria/Servidor: the messages of the kernel and of the CPUs (memoria.c).
--   + Memoria/Tests: concrete states.
-- - Kernel: the kernel, Segundo tp/kernel/src.
--   + Kernel/Heap: the blocks of a heap page (manejo_heap.c).
--   + Kernel/Heap/Tablas: the table of heap pages and the requests of a process, with the pointers of
--     Segundo tp/rocketLibrary/structs/structs.c.
--   + Kernel/Heap/Liberacion: frees, the return of pages and the statistics.
--   + Kernel/Heap/Bloques, Compactacion, Particion, PaginaNueva, Direcciones, Vuelta, Marcas:
--     theorems on them.
--   + Kernel/Colas: the queues of processes (pcbOperaciones.c); Pasos: what a move keeps;
--     Corridas: the moves and admissions as a step relation.
--   + Kernel/Archivos: the tables of open files (capaFs.c); Cuentas, Cierre: counters.
--   + Kernel/Compartidas: shared variables and lists of CPUs (conexionesKernelCpu.c); Vuelta: theorems.
--   + Kernel/Tests: concrete pages.
-- - Fs: the filesystem server (Segundo tp/filesystem/src/logicaFileSystem.c and the handlers of
--   Segundo tp/filesystem/src/filesystem.c).
--   + Fs/Mapa: the bitmap; Fs/Datos: blocks; Fs/Archivos: metadata files and requests.
--   + Fs/Datos/Legible, Plano, Escritura, Archivo, Lectura, Vuelta: a file as one flat array.
--   + Fs/Archivos/Asignacion, Escritura, Vuelta, Creacion, Borrado: theorems on the requests.
--   + Fs/Tests: a filesystem of eight blocks.
-- - Cpu: the primitives of a CPU (Segundo tp/cpu/src/primitivas.c, pedidosMemoria.c, and volverAlMain of
--   ejecucion.c), with t_pcb as the state.
--   + Cpu/Funciones: the stack; Cpu/Sistema: the calls of the kernel; Cpu/Pedidos: requests to memory,
--     with one turn of the loop for each byte at most as fuel.
--   + Cpu/Primitivas: all of them as one step; Pila, Invariante, Llamadas, Retorno: theorems.
--   + Cpu/Tests: a process.
--
-- Conventions. Operations take the state and return the new one with the answer; the outer Option of
-- a result is `none` where the C code has undefined behaviour, such as a NULL of `list_get` that is
-- dereferenced or a copy past the end of an array. A `t_list` is a List. Process ids and page numbers
-- of requests are natural numbers, and the negative codes that share their field are constructors.
-- The hash of a page is an int32_t, wrap-around included; statistics counters do not wrap.
-- The page table is kept as a list of its own: the code puts its rows in the first frames, which
-- it marks as reserved. Row 0 of contadorAuxCache, the row of the empty entries, is two fields of
-- the state. Loops are structural recursion, or recursion on the number of rounds the source makes.
-- The answers to a CPU are arguments of the primitive; the values in them are not in the state.
-- The strings of the commons library are a parameter (Cadenas) with its documentation as laws (Leyes);
-- the decimal text of the metadata files is not modelled: block numbers are naturals.
-- The buffer of a write is the memory that can be read from its address on: a read past it is `none`.
-- The positions of a CPU are naturals, below the overflow of int32_t; the pointers of the heap wrap around.
-- A byte of the bitmap is the list of its bits.
-- The answers of the memory server to the kernel are arguments, in the order in which the kernel reads
-- them; where the kernel reads any number, they are a list and `none` waits for one more.
-- Blocks of the heap are values in the list of their page: the pointers of manejo_heap.c to a
-- block are its place in the table. Sizes are natural numbers: every subtraction of the source on them is after
-- the test that makes it safe.
-- A process of a queue is a value: a move takes out the first process with the PID and adds the one it
-- was given. Of t_pcb, the fields that the moves read or set.
--
-- Not modelled: the moves of processes that end (they touch semaphores and files), the rest of the planner, the
-- loop of the CPU and the console; sockets, threads and mutexes, logs, delays
-- (retardoMemoria), dumps, the text menus and the configuration files. Operations are taken one at
-- a time.
pub mod Base
pub mod Cpu
pub mod Fs
pub mod Kernel
pub mod Memoria
